-- ===== src/Http.antt =====
-- The HTTP reader of src/codec/http.rs, which cuts a stream of bytes into HTTP/1.x messages. The
-- `httparse` crate is a parameter. A length is a `usize` of 64 bits.
pub mod Conserve
pub mod HeaderEnd
pub mod Framing
mod Examples
use rstun.Base.{
  ℕ, zero, suc, ◌+◌, ◌%◌, ◌^◌, ◌-◌, ◌≡◌, Bool, true, false, not, ◌&&◌, ◌||◌, Option, none, some,
  List, [], ◌∷◌, ◌++◌, length, take, drop, find, if◌then◌else◌, Result, ok, err, ◌==◌, ltb, leb,
}
use rstun.Net.{Text}
use rstun.Target.Utf8.{is_utf8}
use rstun.Config.Words.{parse_number, trim, text_eq}

abbrev pub max_header_size : ℕ
max_header_size = 65536

abbrev pub Header : Type 0
Header = Text × List ℕ

-- What a parser of `httparse` makes of a head: its version and its headers.
pub data Parse : Type 0 where
  complete : Option ℕ → List Header → Parse
  partial invalid : Parse

pub record Httparse : Type 0 where
  pub parse_request : List ℕ → Parse
  pub parse_response : List ℕ → Parse

pub data HttpError : Type 0 where
  header_too_large unsupported_version parse_error read_timeout read_failed unexpected_eof :
      HttpError

pub record HttpMessageReader : Type 0 where
  pub buf : List ℕ
  pub initialized : Bool
  pub drain_mode : Bool

-- `HttpMessageReader::new`.
abbrev pub new : HttpMessageReader
new = record { buf = []; initialized = false; drain_mode = false }

-- Whether the bytes begin with "\r\n\r\n".
abbrev pub starts_with_end : List ℕ → Bool
starts_with_end (a ∷ b ∷ c ∷ d ∷ bs) = (a == 13 && b == 10) && (c == 13 && d == 10)
starts_with_end [] = false
starts_with_end (a ∷ []) = false
starts_with_end (a ∷ b ∷ []) = false
starts_with_end (a ∷ b ∷ c ∷ []) = false

abbrev pub after_one : Option ℕ → Option ℕ
after_one none = none
after_one (some n) = some (1 + n)

unfoldable pub find_header_end : List ℕ → Option ℕ
find_header_end [] = none
find_header_end (b ∷ bs) =
    let later = find_header_end bs in if starts_with_end (b ∷ bs) then some 4 else after_one later

-- `eq_ignore_ascii_case`.
abbrev lower : ℕ → ℕ
lower c = if leb 65 c && leb c 90 then c + 32 else c

unfoldable pub eq_ignore_ascii_case : Text → Text → Bool
eq_ignore_ascii_case [] [] = true
eq_ignore_ascii_case [] (d ∷ ds) = false
eq_ignore_ascii_case (c ∷ cs) [] = false
eq_ignore_ascii_case (c ∷ cs) (d ∷ ds) = lower c == lower d && eq_ignore_ascii_case cs ds

-- "content-length"
abbrev pub content_length_name : Text
content_length_name =
    99 ∷ 111 ∷ 110 ∷ 116 ∷ 101 ∷ 110 ∷ 116 ∷ 45 ∷ 108 ∷ 101 ∷ 110 ∷ 103 ∷ 116 ∷ 104 ∷ []

length_of : Option Header → Option ℕ
length_of none = none
length_of (some (name, value)) = if is_utf8 value then parse_number (2 ^ 64) (trim value) else none

-- A length that is no number counts as none.
unfoldable pub content_length : List Header → Option ℕ
unfolding length_of
content_length headers =
    length_of (find (λ h. eq_ignore_ascii_case (h.0) content_length_name) headers)

abbrev supported : Option ℕ → Bool
supported none = false
supported (some version) = version == 0 || version == 1

-- What the two parsers give together: headers, a need for more, or an error.
pub data Head : Type 0 where
  headers : List Header → Head
  need_more : Head
  refused : HttpError → Head

head_of : Parse → Head → Head
head_of (complete version hs) otherwise =
    if supported version then headers hs else refused unsupported_version
head_of partial otherwise = need_more
head_of invalid otherwise = otherwise

-- A request, or else a response.
unfoldable pub parse_head : Httparse → List ℕ → Head
unfolding head_of
parse_head p bytes =
    head_of (p.parse_request bytes) (head_of (p.parse_response bytes) (refused parse_error))

abbrev pub Parsed : Type 0
Parsed = Result HttpError (Option (List ℕ)) × HttpMessageReader

-- The split of the buffer, which is not empty here; `usize` wraps around.
unfoldable pub cut_message : ℕ → Option ℕ → HttpMessageReader → Parsed
cut_message body_start (some cl) r =
    let body_end = (body_start + cl) % 2 ^ 64 in
    if ltb (length r.buf) body_end
    then (ok none, r)
    else (ok (some (take body_end r.buf)), record r { buf = drop body_end r.buf })
cut_message body_start none r = (ok (some r.buf), record r { buf = []; drain_mode = true })

with_head : Head → ℕ → HttpMessageReader → Parsed
with_head (headers hs) header_end r =
    cut_message header_end (content_length hs) (record r { initialized = true })
with_head need_more header_end r = (ok none, r)
with_head (refused e) header_end r = (err e, r)

with_header_end : Httparse → Option ℕ → HttpMessageReader → Parsed
unfolding with_head
with_header_end p none r =
    if ltb max_header_size (length r.buf) then (err header_too_large, r) else (ok none, r)
with_header_end p (some header_end) r =
    with_head (parse_head p (take header_end r.buf)) header_end r

abbrev is_empty : List ℕ → Bool
is_empty [] = true
is_empty (b ∷ bs) = false

unfoldable pub try_parse : Httparse → HttpMessageReader → Parsed
unfolding with_header_end
try_parse p r = if is_empty r.buf then (ok none, r) else with_header_end p (find_header_end r.buf) r

-- What a read of the stream gives; no bytes are the end of the stream.
pub data Read : Type 0 where
  bytes : List ℕ → Read
  timed_out failed : Read

-- A call of `read_message`: its result, the reader after it, and the reads that are left. It
-- waits when the reads are used up.
pub data Reading : Type 0 where
  message : List ℕ → HttpMessageReader → List Read → Reading
  bailed : HttpError → HttpMessageReader → List Read → Reading
  waits : HttpMessageReader → Reading

drained : HttpMessageReader → List Read → Reading
drained r [] = waits r
drained r (bytes bs ∷ reads) = message bs r reads
drained r (timed_out ∷ reads) = bailed read_timeout r reads
drained r (failed ∷ reads) = bailed read_failed r reads

drain : HttpMessageReader → List Read → Reading
unfolding drained
drain r reads =
    if is_empty r.buf then drained r reads else message r.buf (record r { buf = [] }) reads

at_eof : HttpMessageReader → List Read → Reading
at_eof r reads = if is_empty r.buf then message [] r reads else bailed unexpected_eof r reads

-- The loop outside the drain mode; `continue` is the next round.
unfoldable pub read_loop : Httparse → Parsed → List Read → Reading
unfolding at_eof
read_loop p (err e, r) reads = bailed e r reads
read_loop p (ok (some msg), r) reads = message msg r reads
read_loop p (ok none, r) [] = waits r
read_loop p (ok none, r) (bytes [] ∷ reads) = at_eof r reads
read_loop p (ok none, r) (bytes (b ∷ bs) ∷ reads) =
    read_loop p (try_parse p (record r { buf = r.buf ++ (b ∷ bs) })) reads
read_loop p (ok none, r) (timed_out ∷ reads) = bailed read_timeout r reads
read_loop p (ok none, r) (failed ∷ reads) = bailed read_failed r reads

unfoldable pub read_message : Httparse → HttpMessageReader → List Read → Reading
unfolding drain
read_message p r reads = if r.drain_mode then drain r reads else read_loop p (try_parse p r) reads

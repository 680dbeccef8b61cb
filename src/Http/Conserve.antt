-- ===== src/Http/Conserve.antt =====
-- No byte is lost, repeated or moved by the HTTP reader of src/codec/http.rs.
use rstun.Base.{
  ℕ, ◌+◌, ◌%◌, ◌^◌, ◌≡◌, refl, sym, ap, subst, ◌∙◌, Bool, true, false, Option, none, some, List, [],
  ◌∷◌, ◌++◌, append_assoc, append-nil, length, take, drop, take-append-drop, if◌then◌else◌, ok, err,
  ltb,
}
use rstun.Http.{
  Httparse, header_too_large, unexpected_eof, Head, headers, need_more, refused, HttpMessageReader,
  Parsed, find_header_end, content_length, cut_message, with_head, with_header_end, max_header_size,
  parse_head, is_empty, try_parse, Read, bytes, timed_out, failed, Reading, message, bailed, waits,
  drained, drain, at_eof, read_loop, read_message,
}

-- The bytes of the reads.
abbrev pub all_bytes : List Read → List ℕ
all_bytes [] = []
all_bytes (bytes bs ∷ reads) = bs ++ all_bytes reads
all_bytes (timed_out ∷ reads) = all_bytes reads
all_bytes (failed ∷ reads) = all_bytes reads

-- The bytes `bs` are the message, the buffer and what is still to read, in this order.
abbrev pub Accounts : List ℕ → Reading → Type 0
Accounts bs (message m r reads) = bs ≡ m ++ (r.buf ++ all_bytes reads)
Accounts bs (bailed e r reads) = bs ≡ r.buf ++ all_bytes reads
Accounts bs (waits r) = bs ≡ r.buf

abbrev Kept : List ℕ → Parsed → Type 0
Kept bs (ok none, r) = bs ≡ r.buf
Kept bs (ok (some m), r) = bs ≡ m ++ r.buf
Kept bs (err e, r) = bs ≡ r.buf

if-Kept :
    (bs : List ℕ) (t : Bool) (a b : Parsed) → Kept bs a → Kept bs b → Kept bs (if t then a else b)
if-Kept bs true a b ha hb = ha
if-Kept bs false a b ha hb = hb

cut_message-Kept :
    (body_start : ℕ) (cl : Option ℕ) (r : HttpMessageReader)
    → Kept r.buf (cut_message body_start cl r)
unfolding cut_message
cut_message-Kept body_start (some cl) r =
    let body_end = (body_start + cl) % 2 ^ 64 in
    if-Kept r.buf (ltb (length r.buf) body_end) (ok none, r)
      (ok (some (take body_end r.buf)), record r { buf = drop body_end r.buf }) refl
      (sym (take-append-drop body_end r.buf))
cut_message-Kept body_start none r = sym (append-nil r.buf)

with_head-Kept :
    (h : Head) (header_end : ℕ) (r : HttpMessageReader) → Kept r.buf (with_head h header_end r)
unfolding with_head
with_head-Kept (headers hs) header_end r =
    cut_message-Kept header_end (content_length hs) (record r { initialized = true })
with_head-Kept need_more header_end r = refl
with_head-Kept (refused e) header_end r = refl

with_header_end-Kept :
    (p : Httparse) (o : Option ℕ) (r : HttpMessageReader) → Kept r.buf (with_header_end p o r)
unfolding with_header_end
with_header_end-Kept p none r =
    if-Kept r.buf (ltb max_header_size (length r.buf)) (err header_too_large, r) (ok none, r) refl
      refl
with_header_end-Kept p (some header_end) r =
    with_head-Kept (parse_head p (take header_end r.buf)) header_end r

try_parse-Kept : (p : Httparse) (r : HttpMessageReader) → Kept r.buf (try_parse p r)
unfolding try_parse
try_parse-Kept p r =
    if-Kept r.buf (is_empty r.buf) (ok none, r) (with_header_end p (find_header_end r.buf) r) refl
      (with_header_end-Kept p (find_header_end r.buf) r)

if-Accounts :
    (bs : List ℕ) (t : Bool) (a b : Reading)
    → Accounts bs a
    → Accounts bs b
    → Accounts bs (if t then a else b)
if-Accounts bs true a b ha hb = ha
if-Accounts bs false a b ha hb = hb

at_eof-Accounts :
    (bs : List ℕ) (r : HttpMessageReader) (reads : List Read)
    → bs ≡ r.buf
    → Accounts (bs ++ all_bytes reads) (at_eof r reads)
unfolding at_eof
at_eof-Accounts bs r reads h =
    if-Accounts (bs ++ all_bytes reads) (is_empty r.buf) (message [] r reads)
      (bailed unexpected_eof r reads) (ap (λ l. l ++ all_bytes reads) h)
      (ap (λ l. l ++ all_bytes reads) h)

read_loop-Accounts :
    (p : Httparse) (bs : List ℕ) (s : Parsed) (reads : List Read)
    → Kept bs s
    → Accounts (bs ++ all_bytes reads) (read_loop p s reads)
unfolding read_loop
read_loop-Accounts p bs (err e, r) reads h = ap (λ l. l ++ all_bytes reads) h
read_loop-Accounts p bs (ok (some msg), r) reads h =
    ap (λ l. l ++ all_bytes reads) h ∙ append_assoc msg r.buf (all_bytes reads)
read_loop-Accounts p bs (ok none, r) [] h = append-nil bs ∙ h
read_loop-Accounts p bs (ok none, r) (bytes [] ∷ reads) h = at_eof-Accounts bs r reads h
read_loop-Accounts p bs (ok none, r) (bytes (c ∷ cs) ∷ reads) h =
    let next = record r { buf = r.buf ++ (c ∷ cs) } in
    let rest =
      read_loop-Accounts p (r.buf ++ (c ∷ cs)) (try_parse p next) reads (try_parse-Kept p next) in
    subst
      (λ l. Accounts (l ++ ((c ∷ cs) ++ all_bytes reads)) (read_loop p (try_parse p next) reads))
      (sym h)
      (subst (λ l. Accounts l (read_loop p (try_parse p next) reads))
        (append_assoc r.buf (c ∷ cs) (all_bytes reads)) rest)
read_loop-Accounts p bs (ok none, r) (timed_out ∷ reads) h = ap (λ l. l ++ all_bytes reads) h
read_loop-Accounts p bs (ok none, r) (failed ∷ reads) h = ap (λ l. l ++ all_bytes reads) h

drain-Accounts :
    (r : HttpMessageReader) (reads : List Read)
    → Accounts (r.buf ++ all_bytes reads) (drain r reads)
unfolding drain drained
drain-Accounts r reads = by_buf r.buf refl reads
  where
    by_buf :
        (bs : List ℕ)
        → r.buf ≡ bs
        → (reads : List Read)
        → Accounts
            (bs ++ all_bytes reads)
            (if is_empty bs then drained r reads else message bs (record r { buf = [] }) reads)
    by_buf (b ∷ bs) e reads = refl
    by_buf [] e [] = sym e
    by_buf [] e (bytes bs ∷ reads) = ap (λ l. bs ++ l) (ap (λ l. l ++ all_bytes reads) (sym e))
    by_buf [] e (timed_out ∷ reads) = ap (λ l. l ++ all_bytes reads) (sym e)
    by_buf [] e (failed ∷ reads) = ap (λ l. l ++ all_bytes reads) (sym e)

-- Whatever the HTTP parser says, in either mode and for every sequence of reads, the buffered bytes
-- followed by the bytes of the stream are the message that is returned, the buffer that is left and
-- the bytes still to come, in this order; and when the reader bails or waits, they are the buffer
-- that is left and the bytes still to come.
pub read_message-Accounts :
    (p : Httparse) (r : HttpMessageReader) (reads : List Read)
    → Accounts (r.buf ++ all_bytes reads) (read_message p r reads)
unfolding read_message
read_message-Accounts p r reads =
    if-Accounts (r.buf ++ all_bytes reads) r.drain_mode (drain r reads)
      (read_loop p (try_parse p r) reads) (drain-Accounts r reads)
      (read_loop-Accounts p r.buf (try_parse p r) reads (try_parse-Kept p r))

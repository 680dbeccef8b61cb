-- ===== src/Http/Framing.antt =====
-- Messages with a content length leave the HTTP reader of src/codec/http.rs whole.
use rstun.Base.{
  ℕ, ◌+◌, ◌%◌, ◌^◌, ◌<◌, ◌≤◌, ◌≡◌, refl, sym, ap, ◌∙◌, Bool, true, false, none, some, List, [], ◌∷◌,
  ◌++◌, append_assoc, append-nil, length, length-append, drop, take-append_eq, drop-append_eq,
  take-append_length, ok, ltb, arith, Bool-cases, Option-cases, All, inl, inr, ltb→lt,
}
use rstun.Http.{
  Httparse, Header, headers, HttpMessageReader, find_header_end, content_length, cut_message,
  with_head, with_header_end, max_header_size, parse_head, is_empty, try_parse, Read, bytes,
  message, read_loop, read_message,
}
use rstun.Http.HeaderEnd.{some_injective, find_header_end-long, find_header_end-append}

-- A head that the parser takes whole, with the length of the body, which follows it.
pub record IsMessage (p : Httparse) (head body : List ℕ) : Type 0 where
  pub header_end : find_header_end head ≡ some (length head)
  pub header_size : length head ≤ max_header_size
  pub parsed : List Header
  pub parses : parse_head p head ≡ headers parsed
  pub body_length : content_length parsed ≡ some (length body)
  pub fits : length head + length body < 2 ^ 64

cut_message-whole :
    (head body next : List ℕ) (r : HttpMessageReader)
    → length head + length body < 2 ^ 64
    → r.buf ≡ head ++ body ++ next
    → cut_message (length head) (some (length body)) r
      ≡ (ok (some (head ++ body)), record r { buf = next })
unfolding cut_message
cut_message-whole head body next r lt q =
    let n = (length head + length body) % 2 ^ 64 in
    let e : length (head ++ body) ≡ n = omega (arith, length-append head body, lt) in
    ground (
      arith,
      q,
      length-append (head ++ body) next,
      e,
      take-append_eq n (head ++ body) next e,
      drop-append_eq n (head ++ body) next e,
    )

cut_message-short :
    (head body : List ℕ) (r : HttpMessageReader)
    → length head + length body < 2 ^ 64
    → length r.buf < length head + length body
    → cut_message (length head) (some (length body)) r ≡ (ok none, r)
unfolding cut_message
cut_message-short head body r lt h = ground (arith, lt, h)

with_header_end-head :
    (p : Httparse) (head body rest : List ℕ) (r : HttpMessageReader) (m : IsMessage p head body)
    → r.buf ≡ head ++ rest
    → with_header_end p (some (length head)) r
      ≡ cut_message (length head) (some (length body)) (record r { initialized = true })
unfolding with_header_end with_head
with_header_end-head p head body rest r m q =
    rw (q, take-append_length head rest, m.parses, m.body_length)

not_empty : (xs : List ℕ) → 0 < length xs → is_empty xs ≡ false
not_empty [] h = absurd (omega arith)
not_empty (x ∷ xs) h = refl

try_parse-whole :
    (p : Httparse) (head body next : List ℕ) (r : HttpMessageReader)
    → IsMessage p head body
    → r.buf ≡ head ++ body ++ next
    → try_parse p r ≡ (ok (some (head ++ body)), record r { buf = next; initialized = true })
unfolding try_parse
try_parse-whole p head body next r m q =
    let long = find_header_end-long head (length head) m.header_end in
    let some_bytes : is_empty r.buf ≡ false = not_empty r.buf (
      omega
        (arith, ap length q, length-append (head ++ body) next, length-append head body, long.0)) in
    let found : find_header_end r.buf ≡ some (length head) =
      ap find_header_end (q ∙ append_assoc head body next)
      ∙ find_header_end-append head (body ++ next) (length head) m.header_end in
    rw (
      some_bytes,
      found,
      with_header_end-head p head body (body ++ next) r m (q ∙ append_assoc head body next),
      cut_message-whole head body next (record r { initialized = true }) m.fits q,
    )

-- A reader that may have parsed a head.
abbrev marked : HttpMessageReader → Bool → HttpMessageReader
marked r b = record r { initialized = b }

front_of :
    (head body xs rest : List ℕ)
    → xs ++ rest ≡ head ++ body
    → length head ≤ length xs
    → xs ≡ head ++ drop (length head) xs
front_of [] body xs rest q h = refl
front_of (x ∷ head) body [] rest q h = absurd (omega arith)
front_of (x ∷ head) body (y ∷ xs) rest q h =
    let heads : y ≡ x = ap (λ l. elim l [ [] ↦ y | z ∷ zs ↦ z ]) q in
    let tails : xs ++ rest ≡ head ++ body = ap (drop 1) q in
    cc (heads, front_of head body xs rest tails (omega (arith, h)))

no_header_end :
    (p : Httparse) (head body rest : List ℕ) (r : HttpMessageReader)
    → IsMessage p head body
    → r.buf ++ rest ≡ head ++ body
    → length r.buf < length head
    → find_header_end r.buf ≡ none
no_header_end p head body rest r m q lt = elim (Option-cases (find_header_end r.buf)) [
  | inl e ↦ e
  | inr (n, e) ↦
      let there =
        sym (find_header_end-append r.buf rest n e)
        ∙ ap find_header_end q
        ∙ find_header_end-append head body (length head) m.header_end in
      absurd (
        omega (arith, some_injective n (length head) there, (find_header_end-long r.buf n e).1, lt))
]

no_header :
    (p : Httparse) (r : HttpMessageReader)
    → length r.buf ≤ max_header_size
    → with_header_end p none r ≡ (ok none, r)
unfolding with_header_end
no_header p r h = ground (arith, h)

try_parse-short :
    (p : Httparse) (head body rest : List ℕ) (r : HttpMessageReader)
    → IsMessage p head body
    → r.buf ++ rest ≡ head ++ body
    → 0 < length rest
    → (b : Bool) × (try_parse p r ≡ (ok none, marked r b))
unfolding try_parse
try_parse-short p head body rest r m q more = elim (Bool-cases (is_empty r.buf)) [
  | inl e ↦ (r.initialized, rw e)
  | inr e ↦ elim (Bool-cases (ltb (length r.buf) (length head))) [
    | inl l ↦ (
      r.initialized,
      rw (
        e,
        no_header_end p head body rest r m q (ltb→lt _ _ l),
        no_header p r (omega (arith, ltb→lt (length r.buf) (length head) l, m.header_size)),
      ),
    )
    | inr l ↦
        let tail = drop (length head) r.buf in
        let front : r.buf ≡ head ++ tail = front_of head body r.buf rest q (ground (arith, l)) in
        let found : find_header_end r.buf ≡ some (length head) =
          ap find_header_end front ∙ find_header_end-append head tail (length head) m.header_end in
        let sizes : length r.buf + length rest ≡ length head + length body =
          sym (length-append r.buf rest) ∙ ap length q ∙ length-append head body in
        (
          true,
          rw (
            e,
            found,
            with_header_end-head p head body tail r m front,
            cut_message-short head body (record r { initialized = true }) m.fits
                (omega (arith, sizes, more)),
          ),
        )
  ]
]

abbrev pub reads_of : List (List ℕ) → List Read
reads_of [] = []
reads_of (chunk ∷ chunks) = bytes chunk ∷ reads_of chunks

abbrev pub joined : List (List ℕ) → List ℕ
joined [] = []
joined (chunk ∷ chunks) = chunk ++ joined chunks

abbrev pub NotEmpty : List ℕ → Type 0
NotEmpty chunk = 0 < length chunk

joined-length :
    (chunk : List ℕ) (chunks : List (List ℕ))
    → NotEmpty chunk
    → 0 < length (joined (chunk ∷ chunks))
joined-length chunk chunks h = omega (arith, length-append chunk (joined chunks), h)

read_loop-chunks :
    (p : Httparse) (head body : List ℕ) (r : HttpMessageReader) (chunks : List (List ℕ))
    → IsMessage p head body
    → All NotEmpty chunks
    → r.buf ++ joined chunks ≡ head ++ body
    → read_loop p (try_parse p r) (reads_of chunks)
      ≡ message (head ++ body) (record r { buf = []; initialized = true }) []
unfolding read_loop
read_loop-chunks p head body r [] m h q = rw (
    try_parse-whole p head body [] r m
      (sym (append-nil r.buf) ∙ q ∙ sym (append-nil (head ++ body))))
read_loop-chunks p head body r ([] ∷ chunks) m h q = absurd (omega (arith, h.0))
read_loop-chunks p head body r ((c ∷ cs) ∷ chunks) m h q =
    let short =
      try_parse-short p head body (joined ((c ∷ cs) ∷ chunks)) r m q
        (joined-length (c ∷ cs) chunks h.0) in
    let next = record (marked r short.0) { buf = r.buf ++ (c ∷ cs) } in
    ap (λ s. read_loop p s (bytes (c ∷ cs) ∷ reads_of chunks)) short.1
    ∙ read_loop-chunks p head body next chunks m h.1
        (append_assoc r.buf (c ∷ cs) (joined chunks) ∙ q)

-- A message with a header end, a head of at most 65536 bytes that the parser accepts, and a body of
-- the length that its header says, is returned whole and alone by a reader with an empty buffer that
-- is not in the drain mode, in whatever pieces its bytes arrive.
pub read_message-chunks :
    (p : Httparse) (head body : List ℕ) (initialized : Bool) (chunks : List (List ℕ))
    → IsMessage p head body
    → All NotEmpty chunks
    → joined chunks ≡ head ++ body
    → read_message p
        (record { buf = []; initialized = initialized; drain_mode = false })
        (reads_of chunks)
      ≡ message (head ++ body) (record { buf = []; initialized = true; drain_mode = false }) []
unfolding read_message
read_message-chunks p head body initialized chunks m h q =
    read_loop-chunks p head body
      (record { buf = []; initialized = initialized; drain_mode = false }) chunks m h q

-- ===== src/Flow/Copy.antt =====
-- What the copying loops of src/util/stream_util.rs pass on, for every sequence of reads and for
-- every writer.
use rstun.Base.{
  ℕ, ◌-◌, ◌≡◌, Bool, true, false, ◌&&◌, ◌||◌, if◌then◌else◌, refl, sym, ap, subst, ◌∙◌, Option,
  none, some, List, [], ◌∷◌, ◌++◌, map, take, length, leb, Result, ok, err, arith, suc, zero,
  append_assoc, append-nil, take-append_past, take-append_within, length-append,
}
use rstun.Io.{ReadError, timed_out, failed}
use rstun.Flow.{
  Direction, Flow, Ending, flowing, broke, waits_for_other, took_all, took_part, end_writer,
  end_accepted, end_refused, after, stream_to_quic, quic_to_stream, copy_loop, ending_of, go_on,
}

-- What a peer sends before its end of the stream, or before the read that fails.
unfoldable pub arrived : List (Result ReadError (List ℕ)) → List ℕ
arrived [] = []
arrived (err e ∷ reads) = []
arrived (ok [] ∷ reads) = []
arrived (ok (b ∷ bs) ∷ reads) = (b ∷ bs) ++ arrived reads

-- The end of the stream comes, and no failed read before it.
unfoldable pub ends : List (Result ReadError (List ℕ)) → Bool
ends [] = false
ends (err e ∷ reads) = false
ends (ok [] ∷ reads) = true
ends (ok (b ∷ bs) ∷ reads) = ends reads

-- The same read of a QUIC stream.
pub as_quic : Result ReadError (List ℕ) → Result ReadError (Option (List ℕ))
as_quic (err e) = err e
as_quic (ok []) = ok none
as_quic (ok (b ∷ bs)) = ok (some (b ∷ bs))

pub record Forwards (reads : List (Result ReadError (List ℕ))) (d : Direction) (f : Flow)
    : Type 0 where
  pub in_order : f.direction.writer.bytes ≡ d.writer.bytes ++ take d.writer.room (arrived reads)
  pub end_last : f.direction.writer.ended ≡ (
      d.writer.ended
      || (ends reads && (d.writer.accepts_end && leb (length (arrived reads)) d.writer.room)))

nothing_taken : (bs : List ℕ) (n : ℕ) → bs ≡ bs ++ take n []
nothing_taken bs zero = sym (append-nil bs)
nothing_taken bs (suc n) = sym (append-nil bs)

quic_to_stream-as_quic :
    (r : Result ReadError (List ℕ)) (d : Direction)
    → quic_to_stream (as_quic r) d ≡ stream_to_quic r d
unfolding as_quic quic_to_stream stream_to_quic
quic_to_stream-as_quic (err e) d = refl
quic_to_stream-as_quic (ok []) d = refl
quic_to_stream-as_quic (ok (b ∷ bs)) d = refl

same_loop :
    (reads : List (Result ReadError (List ℕ))) (d : Direction)
    → copy_loop quic_to_stream (map as_quic reads) d ≡ copy_loop stream_to_quic reads d
unfolding copy_loop
same_loop [] d = refl
same_loop (r ∷ reads) d =
    rw (quic_to_stream-as_quic r d, same_loop reads (stream_to_quic r d).direction) refl

or_false : (t : Bool) → t ≡ (t || false)
or_false true = refl
or_false false = refl

stopped :
    (reads : List (Result ReadError (List ℕ))) (d : Direction) (e : Ending)
    → arrived reads ≡ []
    → ends reads ≡ false
    → Forwards reads d (record { direction = d; ending = e })
stopped reads d e ha he = record {
  in_order = rw ha (nothing_taken d.writer.bytes d.writer.room);
  end_last = rw he (or_false d.writer.ended);
}

at_end-Forwards :
    (reads : List (Result ReadError (List ℕ))) (d : Direction) (t : Bool)
    → d.writer.accepts_end ≡ t
    → (rest : Flow)
    → Forwards (ok [] ∷ reads) d (after (if t then end_accepted d else end_refused d) rest)
unfolding after end_accepted end_refused arrived ends ending_of go_on
at_end-Forwards reads d true h rest = record {
  in_order = nothing_taken d.writer.bytes d.writer.room;
  end_last = rw h (ground arith);
}
at_end-Forwards reads d false h rest = record {
  in_order = nothing_taken d.writer.bytes d.writer.room;
  end_last = rw h (or_false d.writer.ended);
}

leb_shift :
    (xs ys : List ℕ) (n : ℕ)
    → leb (length xs) n ≡ true
    → leb (length ys) (n - length xs) ≡ leb (length (xs ++ ys)) n
leb_shift xs ys n h = ground (arith, length-append xs ys)

leb_past : (xs ys : List ℕ) (n : ℕ) → leb (length xs) n ≡ false → leb (length (xs ++ ys)) n ≡ false
leb_past xs ys n h = ground (arith, length-append xs ys)

never_ends : (e t a : Bool) → e ≡ (e || (t && (a && false)))
never_ends e t a = ground arith

chunk-Forwards :
    (b : ℕ) (bs : List ℕ) (reads : List (Result ReadError (List ℕ))) (d : Direction) (t : Bool)
    → leb (length (b ∷ bs)) d.writer.room ≡ t
    → (loop : Direction → Flow) → ((e : Direction) → Forwards reads e (loop e))
    → Forwards (ok (b ∷ bs) ∷ reads) d (
        let c = if t then took_all (b ∷ bs) d else took_part (b ∷ bs) d in
        after c (loop c.direction))
unfolding after took_all took_part arrived ends ending_of go_on
chunk-Forwards b bs reads d true h loop rest =
    let f = rest (took_all (b ∷ bs) d).direction in
    record {
      in_order =
          f.in_order
          ∙ append_assoc d.writer.bytes (b ∷ bs)
              (take (d.writer.room - length (b ∷ bs)) (arrived reads))
          ∙ ap (◌++◌ d.writer.bytes)
              (sym (take-append_past d.writer.room (b ∷ bs) (arrived reads) (ground arith)));
      end_last = rw (← (leb_shift (b ∷ bs) (arrived reads) d.writer.room h)) f.end_last;
    }
chunk-Forwards b bs reads d false h loop rest = record {
  in_order =
      ap (◌++◌ d.writer.bytes)
        (sym (take-append_within d.writer.room (b ∷ bs) (arrived reads) (ground arith)));
  end_last =
      rw (leb_past (b ∷ bs) (arrived reads) d.writer.room h)
        (never_ends d.writer.ended (ends reads) d.writer.accepts_end);
}

loop-Forwards :
    (reads : List (Result ReadError (List ℕ))) (d : Direction)
    → Forwards reads d (copy_loop stream_to_quic reads d)
unfolding copy_loop stream_to_quic arrived ends
loop-Forwards [] d = stopped [] d flowing refl refl
loop-Forwards (err timed_out ∷ reads) d =
    stopped (err timed_out ∷ reads) d waits_for_other refl refl
loop-Forwards (err failed ∷ reads) d = stopped (err failed ∷ reads) d broke refl refl
loop-Forwards (ok [] ∷ reads) d =
    at_end-Forwards reads d d.writer.accepts_end refl
      (copy_loop stream_to_quic reads (end_writer d).direction)
loop-Forwards (ok (b ∷ bs) ∷ reads) d =
    chunk-Forwards b bs reads d (leb (length (b ∷ bs)) d.writer.room) refl
      (copy_loop stream_to_quic reads) (loop-Forwards reads)

pub copy_loop-Forwards :
    (reads : List (Result ReadError (List ℕ))) (d : Direction)
    → Forwards reads d (copy_loop stream_to_quic reads d)
      × Forwards reads d (copy_loop quic_to_stream (map as_quic reads) d)
copy_loop-Forwards reads d = (
  loop-Forwards reads d,
  subst (Forwards reads d) (sym (same_loop reads d)) (loop-Forwards reads d),
)

-- ===== src/Compress/Sender.antt =====
-- What `run_encoder` of src/codec/mod.rs sends without HTTP, to a writer that does not fail.
use rstun.Base.{
  ℕ, ◌≡◌, refl, sym, ap, subst, ◌∙◌, ◌⊎◌, inl, inr, Bool, true, false, Option, none, some, List, [],
  ◌∷◌, ◌++◌, Result, ok, err, length,
}
use rstun.Io.{ReadError, timed_out}
use rstun.Io
use rstun.Flow.Copy.{arrived, ends}
use rstun.Codec.{clean_eof, io_error, timeout}
use rstun.Compress.{
  Zstd, Sink, Direction, CodecStats, Progress, waiting, returned, Ran, ran, Io, and_then, Round,
  Winner, read_done, elapsed, flush_due, race, put, write_all, emit, drain, write_compressed,
  flush_encoder, count_raw, count_compressed, finish, after_read, round, run_basic,
}
use rstun.Compress.Agree.{
  History, Agree, Lawful, Carries, Carries-refl, Carries-trans, Steps, drain-Steps,
}

heard :
    Winner → Option (List ℕ) → List (Result ReadError (List ℕ)) → List (Result ReadError (List ℕ))
heard flush_due read rest = rest
heard elapsed read rest = err timed_out ∷ rest
heard read_done none rest = err Io.failed ∷ rest
heard read_done (some bs) rest = ok bs ∷ rest

-- The reads that win their rounds: what a loop without a flush timer would meet.
unfoldable pub reads_of : ℕ → ℕ → List Round → List (Result ReadError (List ℕ))
unfolding heard
reads_of stream_timeout flush_interval [] = []
reads_of stream_timeout flush_interval (r ∷ rounds) =
    heard (race stream_timeout flush_interval r) r.read
      (reads_of stream_timeout flush_interval rounds)

-- How the loop ends by its reads alone.
unfoldable pub progress_of : List (Result ReadError (List ℕ)) → Progress
progress_of [] = waiting
progress_of (err timed_out ∷ reads) = returned timeout
progress_of (err Io.failed ∷ reads) = returned io_error
progress_of (ok [] ∷ reads) = returned clean_eof
progress_of (ok (b ∷ bs) ∷ reads) = progress_of reads

pub and_then-true :
    {C : Type 0} (r : Io C) (rest : Direction C → Ran C) → r.0 ≡ true → and_then r rest ≡ rest r.1
unfolding and_then
and_then-true (true, s) rest h = refl
and_then-true (false, s) rest h = cc

put-codec : {C : Type 0} (s : Direction C) (w : Bool × Sink) → (put s w).1.codec ≡ s.codec
unfolding put
put-codec s (done, w) = refl

pub emit-codec :
    {C : Type 0} (count : ℕ → CodecStats → CodecStats) (out : List ℕ) (s : Direction C)
    → (emit count out s).1.codec ≡ s.codec
unfolding emit
emit-codec count [] s = refl
emit-codec count (b ∷ bs) s =
    put-codec (record s { stats = count (length (b ∷ bs)) s.stats })
      (write_all (b ∷ bs) s.writer s.writer.limit)

module _ {z : Zstd} (h : History z) (law : Lawful h) where
  -- The encoder takes what arrives before the first read that ends the loop, the loop ends as
  -- that read says, and after the end of the stream nothing is pending.
  pub record Sends (d : z.Decoder) (s : Direction z.Encoder)
      (reads : List (Result ReadError (List ℕ))) (r : Ran z.Encoder) : Type 0 where
    pub carries : Carries h law d (arrived reads) s r.state
    pub progress : r.progress ≡ progress_of reads
    pub flushed : (ends reads ≡ false) ⊎ (h.pending r.state.codec ≡ [])

  pub write_compressed-Steps :
      (buf : List ℕ) (d : z.Decoder) (s : Direction z.Encoder)
      → s.writer.limit ≡ none
      → Agree h s.codec d
      → Steps h law d buf s (write_compressed z buf s)
  unfolding write_compressed
  write_compressed-Steps buf d s unlimited agrees =
      drain-Steps h law count_compressed d buf s (z.write buf s.codec) unlimited
        (law.write_lem buf s.codec d agrees)

  pub flush_encoder-Steps :
      (d : z.Decoder) (s : Direction z.Encoder)
      → s.writer.limit ≡ none
      → Agree h s.codec d
      → Steps h law d [] s (flush_encoder z s)
  unfolding flush_encoder
  flush_encoder-Steps d s unlimited agrees =
      drain-Steps h law count_compressed d [] s (z.flush s.codec) unlimited
        (law.flush_lem s.codec d agrees)

  pub flush_encoder-pending :
      (d : z.Decoder) (s : Direction z.Encoder)
      → Agree h s.codec d
      → h.pending (flush_encoder z s).1.codec ≡ []
  unfolding flush_encoder drain
  flush_encoder-pending d s agrees =
      let c = law.flush_lem s.codec d agrees in
      subst (λ r. h.pending (drain count_compressed r s).1.codec ≡ []) (sym c.produced)
        (ap h.pending (emit-codec count_compressed c.out (record s { codec = c.after }))
          ∙ law.flush_pending s.codec c.out c.after c.produced)

  -- A step, and what follows it.
  and_then-Sends :
      {d : z.Decoder} {x : List ℕ} {s : Direction z.Encoder} (r : Io z.Encoder)
      (rest : Direction z.Encoder → Ran z.Encoder) (reads now : List (Result ReadError (List ℕ)))
      (st : Steps h law d x s r)
      → arrived now ≡ x ++ arrived reads
      → progress_of now ≡ progress_of reads
      → ends now ≡ ends reads
      → Sends st.carries.decoder r.1 reads (rest r.1)
      → Sends d s now (and_then r rest)
  and_then-Sends {d} {x} {s} r rest reads now st ha hp he f =
      subst (Sends d s now) (sym (and_then-true r rest st.done)) (record {
        carries =
            subst (λ l. Carries h law d l s (rest r.1).state) (sym ha)
              (Carries-trans h law st.carries f.carries);
        progress = f.progress ∙ sym hp;
        flushed =
            subst (λ t. (t ≡ false) ⊎ (h.pending (rest r.1).state.codec ≡ [])) (sym he) f.flushed;
      })

  finish-Sends :
      (d : z.Decoder) (s : Direction z.Encoder) (reads : List (Result ReadError (List ℕ)))
      → s.writer.limit ≡ none
      → Agree h s.codec d
      → Sends d s (ok [] ∷ reads) (finish z s)
  unfolding finish arrived progress_of
  finish-Sends d s reads unlimited agrees =
      let st = flush_encoder-Steps d s unlimited agrees in
      subst (Sends d s (ok [] ∷ reads))
        (sym (and_then-true (flush_encoder z s) (ran (returned clean_eof)) st.done))
        (record {
          carries = st.carries;
          progress = refl;
          flushed = inr (flush_encoder-pending d s agrees);
        })

  -- The loop ends with nothing more taken.
  stays :
      (d : z.Decoder) (s : Direction z.Encoder) (reads : List (Result ReadError (List ℕ)))
      (p : Progress)
      → s.writer.limit ≡ none
      → Agree h s.codec d
      → arrived reads ≡ []
      → p ≡ progress_of reads
      → ends reads ≡ false
      → Sends d s reads (ran p s)
  stays d s reads p unlimited agrees ha hp he = record {
    carries = subst (λ l. Carries h law d l s s) (sym ha) (Carries-refl h law d s unlimited agrees);
    progress = hp;
    flushed = inl he;
  }

  -- The counter of the raw bytes plays no part.
  pub recount :
      {d : z.Decoder} {x : List ℕ} {t : Direction z.Encoder} (buf : List ℕ)
      (s : Direction z.Encoder)
      → Carries h law d x (count_raw z buf s) t
      → Carries h law d x s t
  unfolding count_raw
  recount buf s c = record {
    out = c.out;
    got = c.got;
    decoder = c.decoder;
    wrote = c.wrote;
    unlimited = c.unlimited;
    reads = c.reads;
    keeps = c.keeps;
    grows = c.grows;
    agrees = c.agrees;
  }

  round-Sends :
      (w : Winner) (read : Option (List ℕ)) (d : z.Decoder) (s : Direction z.Encoder)
      (rest : Direction z.Encoder → Ran z.Encoder) (reads : List (Result ReadError (List ℕ)))
      → s.writer.limit ≡ none
      → Agree h s.codec d
      → ((d' : z.Decoder) (t : Direction z.Encoder)
          → t.writer.limit ≡ none
          → Agree h t.codec d'
          → Sends d' t reads (rest t))
      → Sends d s (heard w read reads) (round z w read s rest)
  unfolding round heard after_read arrived ends progress_of count_raw
  round-Sends flush_due read d s rest reads unlimited agrees ih =
      let st = flush_encoder-Steps d s unlimited agrees in
      and_then-Sends (flush_encoder z s) rest reads reads st refl refl refl
        (ih st.carries.decoder (flush_encoder z s).1 st.carries.unlimited st.carries.agrees)
  round-Sends elapsed read d s rest reads unlimited agrees ih =
      stays d s (err timed_out ∷ reads) (returned timeout) unlimited agrees refl refl refl
  round-Sends read_done none d s rest reads unlimited agrees ih =
      stays d s (err Io.failed ∷ reads) (returned io_error) unlimited agrees refl refl refl
  round-Sends read_done (some []) d s rest reads unlimited agrees ih =
      finish-Sends d s reads unlimited agrees
  round-Sends read_done (some (b ∷ bs)) d s rest reads unlimited agrees ih =
      let counted = count_raw z (b ∷ bs) s in
      let st = write_compressed-Steps (b ∷ bs) d counted unlimited agrees in
      let r = write_compressed z (b ∷ bs) counted in
      let f =
        and_then-Sends r rest reads (ok (b ∷ bs) ∷ reads) st refl refl refl
          (ih st.carries.decoder r.1 st.carries.unlimited st.carries.agrees) in
      record { carries = recount (b ∷ bs) s f.carries; progress = f.progress; flushed = f.flushed }

  pub run_basic-Sends :
      (stream_timeout flush_interval : ℕ) (rounds : List Round) (d : z.Decoder)
      (s : Direction z.Encoder)
      → s.writer.limit ≡ none
      → Agree h s.codec d
      → Sends d s
          (reads_of stream_timeout flush_interval rounds)
          (run_basic z stream_timeout flush_interval rounds s)
  unfolding run_basic reads_of arrived ends progress_of
  run_basic-Sends stream_timeout flush_interval [] d s unlimited agrees =
      stays d s [] waiting unlimited agrees refl refl refl
  run_basic-Sends stream_timeout flush_interval (r ∷ rounds) d s unlimited agrees =
      round-Sends (race stream_timeout flush_interval r) r.read d s
        (run_basic z stream_timeout flush_interval rounds)
        (reads_of stream_timeout flush_interval rounds) unlimited agrees
        (run_basic-Sends stream_timeout flush_interval rounds)

-- ===== src/Compress/Idle.antt =====
-- The idle timeout of `run_encoder`, src/codec/mod.rs.
use rstun.Base.{ℕ, ◌<◌, ◌≢◌, refl, true, false, Option, none, some, List, [], ◌∷◌, arith}
use rstun.Codec.{timeout, clean_eof}
use rstun.Compress.{
  Zstd, Direction, returned, Ran, Io, and_then, Round, Winner, read_done, elapsed, flush_due, race,
  flush_encoder, write_compressed, count_raw, finish, after_read, round, run_basic, ran,
}

race-ne-elapsed :
    (stream_timeout flush_interval : ℕ) (r : Round)
    → flush_interval < stream_timeout
    → race stream_timeout flush_interval r ≢ elapsed
unfolding race
race-ne-elapsed stream_timeout flush_interval r le = ground arith

module _ (z : Zstd) where
  and_then-ne-timeout :
      (r : Io z.Encoder) (rest : Direction z.Encoder → Ran z.Encoder)
      → ((s : Direction z.Encoder) → (rest s).progress ≢ returned timeout)
      → (and_then r rest).progress ≢ returned timeout
  unfolding and_then
  and_then-ne-timeout (true, s) rest h = h s
  and_then-ne-timeout (false, s) rest h = λ e. cc

  round-ne-timeout :
      (w : Winner) (read : Option (List ℕ)) (s : Direction z.Encoder)
      (rest : Direction z.Encoder → Ran z.Encoder)
      → w ≢ elapsed
      → ((s : Direction z.Encoder) → (rest s).progress ≢ returned timeout)
      → (round z w read s rest).progress ≢ returned timeout
  unfolding round after_read finish
  round-ne-timeout flush_due read s rest lost h = and_then-ne-timeout (flush_encoder z s) rest h
  round-ne-timeout elapsed read s rest lost h = absurd (lost refl)
  round-ne-timeout read_done none s rest lost h = λ e. cc
  round-ne-timeout read_done (some []) s rest lost h =
      and_then-ne-timeout (flush_encoder z s) (ran (returned clean_eof)) (λ t e. cc)
  round-ne-timeout read_done (some (b ∷ bs)) s rest lost h =
      and_then-ne-timeout (write_compressed z (b ∷ bs) (count_raw z (b ∷ bs) s)) rest h

  -- When the flush interval is shorter than the stream's timeout, the loop without HTTP never
  -- ends by the timeout, however long its reads take: every flush starts the timeout anew.
  pub run_basic-ne-timeout :
      (stream_timeout flush_interval : ℕ) (rounds : List Round) (s : Direction z.Encoder)
      → flush_interval < stream_timeout
      → (run_basic z stream_timeout flush_interval rounds s).progress ≢ returned timeout
  unfolding run_basic
  run_basic-ne-timeout stream_timeout flush_interval [] s le = λ e. cc
  run_basic-ne-timeout stream_timeout flush_interval (r ∷ rounds) s le =
      round-ne-timeout (race stream_timeout flush_interval r) r.read s
        (run_basic z stream_timeout flush_interval rounds)
        (race-ne-elapsed stream_timeout flush_interval r le)
        (λ t. run_basic-ne-timeout stream_timeout flush_interval rounds t le)

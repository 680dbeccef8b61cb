-- ===== src/Compress.antt =====
-- The compressed stream of src/codec/mod.rs: `run_encoder` in its two modes, `run_decoder`, and
-- what they call. The zstd crate is a parameter; its states are opaque, and `none` is its error.
pub mod Agree
pub mod Sender
pub mod Receiver
pub mod Transparent
pub mod HttpMode
pub mod Idle
pub mod Config
pub mod Session
pub mod Served
pub mod Leftover
pub mod Buffering
mod Examples
mod StreamExamples
use rstun.Base.{
  ℕ, zero, suc, ◌+◌, ◌-◌, ◌%◌, ◌^◌, Bool, true, false, ◌&&◌, Option, none, some, List, [], ◌∷◌,
  ◌++◌, take, length, leb, ltb, min, ◌||◌, ◌==◌, if◌then◌else◌,
}
use rstun.Http
use rstun.Http.{Httparse, HttpMessageReader, Reading, message, bailed, waits, read_message}
use rstun.Codec.{StreamOutcome, clean_eof, io_error, timeout, failed}

-- `write::Encoder` and `write::Decoder` over a `Vec<u8>`: `write_all` or `flush`, then the bytes
-- taken out of the buffer. `decode` is `write_all` and `flush` together.
pub record Zstd : Type 1 where
  pub Encoder : Type 0
  pub Decoder : Type 0
  pub write : List ℕ → Encoder → Option (List ℕ × Encoder)
  pub flush : Encoder → Option (List ℕ × Encoder)
  pub decode : List ℕ → Decoder → Option (List ℕ × Decoder)

pub record CodecStats : Type 0 where
  pub up_raw : ℕ
  pub up_compressed : ℕ
  pub down_compressed : ℕ
  pub down_decompressed : ℕ

-- `AtomicU64::fetch_add`.
abbrev pub fetch_add : ℕ → ℕ → ℕ
fetch_add counter n = (counter + n) % 2 ^ 64

-- A writer: the bytes it took, how many more it takes if it ever fails, and its end.
pub record Sink : Type 0 where
  pub bytes : List ℕ
  pub limit : Option ℕ
  pub accepts_end : Bool
  pub ended : Bool

-- `write_all`: whether it succeeds, and the writer after it.
unfoldable pub write_all : List ℕ → Sink → Option ℕ → Bool × Sink
write_all buf w none = (true, record w { bytes = w.bytes ++ buf })
write_all buf w (some n) =
    if leb (length buf) n
    then (true, record w { bytes = w.bytes ++ buf; limit = some (n - length buf) })
    else (false, record w { bytes = w.bytes ++ take n buf; limit = some 0 })

-- One direction of a stream: the state of its codec, its writer, and the counters.
pub record Direction (C : Type 0) : Type 0 where
  pub codec : C
  pub writer : Sink
  pub stats : CodecStats

abbrev pub Io : Type 0 → Type 0
Io C = Bool × Direction C

unfoldable pub put : {C : Type 0} → Direction C → Bool × Sink → Io C
put s (done, w) = (done, record s { writer = w })

count_compressed : ℕ → CodecStats → CodecStats
count_compressed n t = record t { up_compressed = fetch_add t.up_compressed n }

count_decompressed : ℕ → CodecStats → CodecStats
count_decompressed n t = record t { down_decompressed = fetch_add t.down_decompressed n }

-- What the codec produced is counted and written, if it is anything.
unfoldable pub emit : {C : Type 0} → (ℕ → CodecStats → CodecStats) → List ℕ → Direction C → Io C
unfolding put write_all
emit count [] s = (true, s)
emit count (b ∷ bs) s =
    put (record s { stats = count (length (b ∷ bs)) s.stats })
      (write_all (b ∷ bs) s.writer s.writer.limit)

-- An error of the codec, by `?`, or else its new state and its output.
unfoldable pub drain :
    {C : Type 0} → (ℕ → CodecStats → CodecStats) → Option (List ℕ × C) → Direction C → Io C
unfolding emit
drain count none s = (false, s)
drain count (some (produced, codec)) s = emit count produced (record s { codec = codec })

-- Where a loop stands: it waits for input, it returned, or the fuel of the model ran out.
pub data Progress : Type 0 where
  waiting out_of_fuel : Progress
  returned : StreamOutcome → Progress

pub record Ran (C : Type 0) : Type 0 where
  pub progress : Progress
  pub state : Direction C

abbrev pub ran : {C : Type 0} → Progress → Direction C → Ran C
ran progress s = record { progress = progress; state = s }

-- `…await?` and then the rest of the loop; an error is the loop's.
unfoldable pub and_then : {C : Type 0} → Io C → (Direction C → Ran C) → Ran C
and_then (true, s) rest = rest s
and_then (false, s) rest = ran (returned failed) s

-- A round of the loop without HTTP: after `delay` milliseconds the read would give its bytes, none
-- at the end of the stream, or fail. `sleep_first` is the choice of `select!` when both are due.
pub record Round : Type 0 where
  pub delay : ℕ
  pub sleep_first : Bool
  pub read : Option (List ℕ)

pub data Winner : Type 0 where
  read_done elapsed flush_due : Winner

-- The read under its timeout, which polls the read first.
timed_read : ℕ → ℕ → Winner
timed_read stream_timeout delay = if leb delay stream_timeout then read_done else elapsed

-- `select!` of that and the sleep; both start anew in every round.
unfoldable pub race : ℕ → ℕ → Round → Winner
unfolding timed_read
race stream_timeout flush_interval r =
    let due = min r.delay stream_timeout in
    if ltb flush_interval due || (r.sleep_first && flush_interval == due)
    then flush_due
    else timed_read stream_timeout r.delay

module _ (z : Zstd) where
  unfoldable pub write_compressed : List ℕ → Direction z.Encoder → Io z.Encoder
  unfolding drain count_compressed
  write_compressed buf s = drain count_compressed (z.write buf s.codec) s

  unfoldable pub flush_encoder : Direction z.Encoder → Io z.Encoder
  unfolding drain count_compressed
  flush_encoder s = drain count_compressed (z.flush s.codec) s

  unfoldable pub count_raw : List ℕ → Direction z.Encoder → Direction z.Encoder
  count_raw buf s = record s {
    stats = record s.stats { up_raw = fetch_add s.stats.up_raw (length buf) };
  }

  -- Clean EOF: what the encoder still holds is flushed.
  unfoldable pub finish : Direction z.Encoder → Ran z.Encoder
  unfolding and_then
  finish s = and_then (flush_encoder s) (ran (returned clean_eof))

  unfoldable pub after_read :
      Option (List ℕ) → Direction z.Encoder → (Direction z.Encoder → Ran z.Encoder) → Ran z.Encoder
  unfolding and_then finish count_raw
  after_read none s rest = ran (returned io_error) s
  after_read (some []) s rest = finish s
  after_read (some (b ∷ bs)) s rest =
      and_then (write_compressed (b ∷ bs) (count_raw (b ∷ bs) s)) rest

  unfoldable pub round :
      Winner
      → Option (List ℕ)
      → Direction z.Encoder
      → (Direction z.Encoder → Ran z.Encoder)
      → Ran z.Encoder
  unfolding and_then after_read
  round flush_due read s rest = and_then (flush_encoder s) rest
  round elapsed read s rest = ran (returned timeout) s
  round read_done read s rest = after_read read s rest

  -- `run_encoder` without HTTP.
  unfoldable pub run_basic : ℕ → ℕ → List Round → Direction z.Encoder → Ran z.Encoder
  unfolding round race
  run_basic stream_timeout flush_interval [] s = ran waiting s
  run_basic stream_timeout flush_interval (r ∷ rounds) s =
      round (race stream_timeout flush_interval r) r.read s
        (run_basic stream_timeout flush_interval rounds)

  -- The flush after a message, if `write_compressed` did not fail.
  unfoldable pub then_flush : Io z.Encoder → Io z.Encoder
  then_flush (true, s) = flush_encoder s
  then_flush (false, s) = (false, s)

  -- A message is compressed and flushed.
  unfoldable pub send_message : List ℕ → Direction z.Encoder → Io z.Encoder
  unfolding count_raw then_flush
  send_message msg s = then_flush (write_compressed msg (count_raw msg s))

  unfoldable pub after_message :
      Reading
      → Direction z.Encoder
      → (HttpMessageReader → List Http.Read → Direction z.Encoder → Ran z.Encoder)
      → Ran z.Encoder
  unfolding and_then finish send_message
  after_message (message [] r reads) s rest = finish s
  after_message (message (b ∷ bs) r reads) s rest =
      and_then (send_message (b ∷ bs) s) (rest r reads)
  after_message (bailed e r reads) s rest = ran (returned io_error) s
  after_message (waits r) s rest = ran waiting s

  -- `run_encoder` for HTTP, a message in each round.
  unfoldable pub run_http :
      Httparse → ℕ → HttpMessageReader → List Http.Read → Direction z.Encoder → Ran z.Encoder
  unfolding after_message
  run_http p zero r reads s = ran out_of_fuel s
  run_http p (suc fuel) r reads s = after_message (read_message p r reads) s (run_http p fuel)

  unfoldable pub shut_down : Direction z.Decoder → Ran z.Decoder
  shut_down s =
      if s.writer.accepts_end
      then ran (returned clean_eof) (record s { writer = record s.writer { ended = true } })
      else ran (returned failed) s

  unfoldable pub decode_chunk : List ℕ → Direction z.Decoder → Io z.Decoder
  unfolding drain count_decompressed
  decode_chunk buf s = drain count_decompressed (z.decode buf s.codec) (record s {
    stats = record s.stats { down_compressed = fetch_add s.stats.down_compressed (length buf) };
  })

  -- Clean EOF: the decoder is flushed.
  unfoldable pub flush_decoder : Direction z.Decoder → Io z.Decoder
  unfolding drain count_decompressed
  flush_decoder s = drain count_decompressed (z.decode [] s.codec) s

  -- `run_decoder`, over what its reads give.
  unfoldable pub run_decoder : List Http.Read → Direction z.Decoder → Ran z.Decoder
  unfolding and_then shut_down decode_chunk flush_decoder
  run_decoder [] s = ran waiting s
  run_decoder (Http.bytes [] ∷ reads) s = and_then (flush_decoder s) shut_down
  run_decoder (Http.bytes (b ∷ bs) ∷ reads) s =
      and_then (decode_chunk (b ∷ bs) s) (run_decoder reads)
  run_decoder (Http.timed_out ∷ reads) s = ran (returned timeout) s
  run_decoder (Http.failed ∷ reads) s = ran (returned io_error) s

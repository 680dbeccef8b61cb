-- ===== src/Compress/Leftover.antt =====
-- Two streams over one codec pair, src/codec/mod.rs: a local read that fails leaves its data in the
-- encoder, and the pair goes back to the table with it.
use rstun.Base.{
  ℕ, ◌≡◌, refl, sym, ap, subst, ◌∙◌, true, false, Option, none, some, List, [], ◌∷◌, ◌++◌,
  append-nil, arith,
}
use mathlib.Core.List.{append_cancel_left}
use rstun.Flow.Copy.{arrived, ends}
use rstun.Codec.{Cache, HandshakeResult, clean_eof, io_error, end_task, checkin}
use rstun.Compress.{
  Zstd, Direction, Sink, returned, ran, Ran, Round, read_done, race, round, timed_read, run_basic,
  write_compressed, count_raw, emit, drain, after_read, and_then,
}
use rstun.Compress.Agree.{History, Agree, Lawful}
use rstun.Compress.Sender.{reads_of, run_basic-Sends}
use rstun.Compress.Receiver.{Chunks, joined, arriving, run_decoder-Received}
use rstun.Compress.Transparent.{Carries-Passes, nothing_left}
use rstun.Compress.Served.{InStep}
use rstun.Compress.Session.{no_stats, codecs, s2q_task, q2s_task, left, s2q_ends, q2s_ends}

-- A round whose read is done at once.
abbrev pub at_once : Option (List ℕ) → Round
at_once read = record { delay = 0; sleep_first = false; read = read }

-- Data, and then a read that fails, before a flush.
abbrev pub then_fails : ℕ → List ℕ → List Round
then_fails b bs = at_once (some (b ∷ bs)) ∷ at_once none ∷ []

race-at_once :
    (stream_timeout flush_interval : ℕ) (read : Option (List ℕ))
    → race stream_timeout flush_interval (at_once read) ≡ read_done
unfolding race timed_read
race-at_once stream_timeout flush_interval read = ground arith

module _ (z : Zstd) where
  write-buffered :
      (x : List ℕ) (e1 : z.Encoder) (s : Direction z.Encoder)
      → z.write x s.codec ≡ some ([], e1)
      → write_compressed z x s ≡ (true, record s { codec = e1 })
  unfolding write_compressed drain emit
  write-buffered x e1 s h = rw (h) refl

  -- The encoder keeps what it buffered, and nothing is written.
  run_basic-then_fails :
      (stream_timeout flush_interval b : ℕ) (bs : List ℕ) (e1 : z.Encoder) (s : Direction z.Encoder)
      → z.write (b ∷ bs) s.codec ≡ some ([], e1)
      → run_basic z stream_timeout flush_interval (then_fails b bs) s
        ≡ ran (returned io_error) (record (count_raw z (b ∷ bs) s) { codec = e1 })
  unfolding run_basic round after_read and_then count_raw
  run_basic-then_fails stream_timeout flush_interval b bs e1 s h =
      rw
        (
          race-at_once stream_timeout flush_interval (some (b ∷ bs)),
          write-buffered (b ∷ bs) e1 (count_raw z (b ∷ bs) s) h,
        )
        refl

some-injective : {A : Type 0} {x y : A} → some x ≡ some y → x ≡ y
some-injective {A} {x} {y} h = ap (λ o. elim o [ none ↦ x | some a ↦ a ]) h

module _ {z : Zstd} (h : History z) (law : Lawful h) (new_encoder : z.Encoder)
    (new_decoder : z.Decoder) (stream_timeout flush_interval : ℕ) where
  abbrev Side : Type 0
  Side = HandshakeResult (codecs z new_encoder new_decoder)

  abbrev Table : Type 0
  Table = Cache (codecs z new_encoder new_decoder)

  -- Two streams in one direction: `a1` and `b1` are the tasks of the first, from `ra` to `rb`, which
  -- brought `x`; `b2` is the receiver of the second, which brought `y`.
  pub record Leftover (x y : List ℕ) (ra rb : Side) (ca cb : Table)
      (sent1 written1 written2 : List ℕ) (e1 : z.Encoder) (a1 : Ran z.Encoder)
      (b1 b2 : Ran z.Decoder) : Type 0 where
    pub sender_checks_in :
        s2q_ends z new_encoder new_decoder ra a1 ca
        ≡ checkin ra.s2q_id (record ra.s2q_pair { encoder = e1 }) ca
    pub receiver_checks_in :
        q2s_ends z new_encoder new_decoder rb b1 cb ≡ checkin rb.q2s_id rb.q2s_pair cb
    pub nothing_sent : a1.state.writer.bytes ≡ sent1
    pub nothing_written : b1.state.writer.bytes ≡ written1
    pub leftover_written : b2.state.writer.bytes ≡ written2 ++ (x ++ y)
    pub first_ends : b1.progress ≡ returned clean_eof
    pub second_ends : b2.progress ≡ returned clean_eof

  pending-buffered :
      (x : List ℕ) (e e1 : z.Encoder) (d : z.Decoder)
      → Agree h e d
      → h.pending e ≡ []
      → z.write x e ≡ some ([], e1)
      → Agree h e1 d × (h.pending e1 ≡ x)
  pending-buffered x e e1 d agrees idle buffered =
      let c = law.write_lem x e d agrees in
      let same = some-injective (sym c.produced ∙ buffered) in
      let out : c.out ≡ [] = ap (λ p. p.0) same in
      let after : c.after ≡ e1 = ap (λ p. p.1) same in
      let decoded = some-injective (
        sym (subst (λ l. z.decode l d ≡ some (c.got, c.decoder)) out c.reads) ∙ law.decode_nil d) in
      let agrees1 =
        subst (λ e. Agree h e d) after (subst (Agree h c.after) (ap (λ p. p.1) decoded) c.agrees) in
      (
        agrees1,
        append_cancel_left (h.decoded d) (h.pending e1) x (
            sym (law.agree_lem e1 d agrees1)
            ∙ ap h.encoded (sym after)
            ∙ c.keeps
            ∙ ap (λ l. l ++ x) (law.agree_lem e d agrees)
            ∙ ap (λ l. (h.decoded d ++ l) ++ x) idle
            ∙ ap (λ l. l ++ x) (append-nil (h.decoded d))),
      )

  -- A stream whose pairs are in step with nothing pending, as after a handshake, brings data that
  -- the encoder buffers without output, and then its local read fails. Its receiver ends clean
  -- and has written nothing; both sides check their pairs in, the sender's with an encoder that
  -- still holds the data. When the next stream in that direction has this pair on both sides,
  -- ends by end of file and its writers do not fail, its receiver writes the data of the first stream
  -- before its own, and ends clean.
  pub s2q_task-Leftover :
      (b : ℕ) (bs : List ℕ) (e1 : z.Encoder) (ra rb ra2 rb2 : Side) (ca cb : Table)
      (send1 write1 send2 write2 : Sink) (rounds2 : List Round) (cs2 : Chunks)
      → InStep h law new_encoder new_decoder ra.s2q_pair.encoder rb.q2s_pair.decoder
      → z.write (b ∷ bs) ra.s2q_pair.encoder ≡ some ([], e1)
      → write1.limit ≡ none
      → write1.accepts_end ≡ true
      → send2.limit ≡ none
      → write2.limit ≡ none
      → write2.accepts_end ≡ true
      → ra2.s2q_pair.encoder
        ≡ (s2q_task z new_encoder new_decoder stream_timeout flush_interval ra
            (then_fails b bs)
            send1).state.codec
      → rb2.q2s_pair.decoder
        ≡ (q2s_task z new_encoder new_decoder rb (arriving []) write1).state.codec
      → ends (reads_of stream_timeout flush_interval rounds2) ≡ true
      → (s2q_task z new_encoder new_decoder stream_timeout flush_interval ra2 rounds2
          send2).state.writer.bytes
        ≡ send2.bytes ++ joined cs2
      → Leftover
          (b ∷ bs)
          (arrived (reads_of stream_timeout flush_interval rounds2))
          ra
          rb
          ca
          cb
          send1.bytes
          write1.bytes
          write2.bytes
          e1
          (s2q_task z new_encoder new_decoder stream_timeout flush_interval ra
            (then_fails b bs)
            send1)
          (q2s_task z new_encoder new_decoder rb (arriving []) write1)
          (q2s_task z new_encoder new_decoder rb2 (arriving cs2) write2)
  unfolding s2q_task q2s_task s2q_ends q2s_ends left end_task count_raw
  s2q_task-Leftover b bs e1 ra rb ra2 rb2 ca cb send1 write1 send2 write2 rounds2 cs2 step buffered
        wfree1 accepts1 sfree2 wfree2 accepts2 same_encoder same_decoder ended sent2 =
      let reads2 = reads_of stream_timeout flush_interval rounds2 in
      let first =
        run_basic-then_fails z stream_timeout flush_interval b bs e1
          (record { codec = ra.s2q_pair.encoder; writer = send1; stats = no_stats }) buffered in
      let r1 =
        run_decoder-Received h law [] [] rb.q2s_pair.decoder
          (record { codec = rb.q2s_pair.decoder; writer = write1; stats = no_stats }) wfree1
          accepts1 (law.decode_nil rb.q2s_pair.decoder) in
      let (agrees1, held) =
        pending-buffered (b ∷ bs) ra.s2q_pair.encoder e1 rb.q2s_pair.decoder step.0 step.1
          buffered in
      let encoder2 = same_encoder ∙ ap (λ a. a.state.codec) first in
      let decoder2 = same_decoder ∙ r1.codec_after in
      let agrees2 =
        subst (λ e. Agree h e rb2.q2s_pair.decoder) (sym encoder2)
          (subst (Agree h e1) (sym decoder2) agrees1) in
      let s2 : Direction z.Encoder = record {
        codec = ra2.s2q_pair.encoder;
        writer = send2;
        stats = no_stats;
      } in
      let q2 : Direction z.Decoder = record {
        codec = rb2.q2s_pair.decoder;
        writer = write2;
        stats = no_stats;
      } in
      let a2 = run_basic z stream_timeout flush_interval rounds2 s2 in
      let f2 =
        run_basic-Sends h law stream_timeout flush_interval rounds2 rb2.q2s_pair.decoder s2 sfree2
          agrees2 in
      let p2 =
        Carries-Passes h law (arrived reads2) s2 a2.state q2 cs2 agrees2 wfree2 accepts2 f2.carries
          sent2 in
      let flushed = nothing_left (ends reads2) (h.pending a2.state.codec) ended f2.flushed in
      record {
        sender_checks_in = ap (λ a. s2q_ends z new_encoder new_decoder ra a ca) first;
        receiver_checks_in =
            ap
              (λ p.
                left z new_encoder new_decoder p rb.q2s_id
                  (record rb.q2s_pair {
                    decoder =
                        (q2s_task z new_encoder new_decoder rb (arriving []) write1).state.codec;
                  })
                  cb)
              r1.progress
            ∙ ap (λ d. checkin rb.q2s_id (record rb.q2s_pair { decoder = d }) cb) r1.codec_after;
        nothing_sent = ap (λ a. a.state.writer.bytes) first;
        nothing_written = r1.bytes_after ∙ append-nil write1.bytes;
        leftover_written =
            p2.delivered
            ∙ ap (◌++◌ write2.bytes) (
                sym (append-nil p2.got)
                ∙ ap (◌++◌ p2.got) (sym flushed)
                ∙ p2.whole
                ∙ ap (λ e. h.pending e ++ arrived reads2) encoder2
                ∙ ap (λ l. l ++ arrived reads2) held);
        first_ends = r1.progress;
        second_ends = p2.progress;
      }

-- ===== src/Compress/Served.antt =====
-- Both sides of a compressed stream from the handshake to the end of its tasks, src/codec/mod.rs.
use rstun.Base.{ℕ, ◌≡◌, ◌≤◌, ap, length, true, none, List, [], ◌++◌, Result, ok, err}
use rstun.Flow
use rstun.Flow.Copy.{arrived, ends}
use rstun.Codec.{Cache, HandshakeError, HandshakeResult, end_task, checkin, side}
use rstun.Codec.Sync.{Ready, exchange_pair_id-sync}
use rstun.Compress.{Zstd, Sink, Ran, Round}
use rstun.Compress.Agree.{History, Agree, Lawful}
use rstun.Compress.Sender.{reads_of}
use rstun.Compress.Receiver.{Chunks, joined, arriving}
use rstun.Compress.Transparent.{Transparent, run_decoder-run_encoder}
use rstun.Compress.Session.{
  no_stats, codecs, Flowing, plain, no_peer_address, handshake_failed, compressed, after_handshake,
  start_flowing_with_codec, s2q_task, q2s_task, left, s2q_ends, q2s_ends,
}

module _ {z : Zstd} (h : History z) (law : Lawful h) (new_encoder : z.Encoder)
    (new_decoder : z.Decoder) where
  abbrev pub InStep : z.Encoder → z.Decoder → Type 0
  InStep e d = Agree h e d × (h.pending e ≡ [])

  abbrev Side : Type 0
  Side = HandshakeResult (codecs z new_encoder new_decoder)

  abbrev Table : Type 0
  Table = Cache (codecs z new_encoder new_decoder)

  -- A direction from a side with `ra` whose stream ends by end of file, over writers that do not
  -- fail; its compressed bytes arrive as `cs`, and `u` is a plain copy to a writer with the room.
  pub record Whole (stream_timeout flush_interval : ℕ) (ra : Side) (rounds : List Round)
      (quic_send stream_write : Sink) (cs : Chunks) (u : Flow.Direction) : Type 0 where
    pub send_free : quic_send.limit ≡ none
    pub write_free : stream_write.limit ≡ none
    pub accepts_end : stream_write.accepts_end ≡ true
    pub ended : ends (reads_of stream_timeout flush_interval rounds) ≡ true
    pub sent :
        (s2q_task z new_encoder new_decoder stream_timeout flush_interval ra rounds
          quic_send).state.writer.bytes
        ≡ quic_send.bytes ++ joined cs
    pub same_start : u.writer.bytes ≡ stream_write.bytes
    pub room : length (arrived (reads_of stream_timeout flush_interval rounds)) ≤ u.writer.room

  -- The direction is a plain copy, and both sides check their pairs in.
  pub record Served (ra rb : Side) (ca cb : Table) (a : Ran z.Encoder) (b : Ran z.Decoder)
      (u : Flow.Flow) : Type 0 where
    pub transparent : Transparent h law a b u
    pub sender_keeps :
        s2q_ends z new_encoder new_decoder ra a ca
        ≡ checkin ra.s2q_id (record ra.s2q_pair { encoder = a.state.codec }) ca
    pub receiver_keeps :
        q2s_ends z new_encoder new_decoder rb b cb
        ≡ checkin rb.q2s_id (record rb.q2s_pair { decoder = b.state.codec }) cb

  pairs_of : Side → Flowing z new_encoder new_decoder → Side
  pairs_of r (compressed r') = r'
  pairs_of r plain = r
  pairs_of r no_peer_address = r
  pairs_of r (handshake_failed e) = r

  -- A compressed stream had a handshake that both phases of the peer answered.
  shaken :
      (handshake : Result HandshakeError Side × Table) (c : Table) (r : Side) (c' : Table)
      → start_flowing_with_codec z new_encoder new_decoder true true c handshake
        ≡ (compressed r, c')
      → handshake ≡ (ok r, c')
  unfolding start_flowing_with_codec after_handshake pairs_of
  shaken (ok r0, c0) c r c' e = ap (λ x. (ok (pairs_of r0 (x.0)), x.1)) e
  shaken (err e0, c0) c r c' e = cc

  one_direction :
      (stream_timeout flush_interval : ℕ) (ra rb : Side) (ca cb : Table) (rounds : List Round)
      (quic_send stream_write : Sink) (cs : Chunks) (u : Flow.Direction)
      → InStep ra.s2q_pair.encoder rb.q2s_pair.decoder
      → Whole stream_timeout flush_interval ra rounds quic_send stream_write cs u
      → Served ra rb ca cb
          (s2q_task z new_encoder new_decoder stream_timeout flush_interval ra rounds quic_send)
          (q2s_task z new_encoder new_decoder rb (arriving cs) stream_write)
          (Flow.copy_loop Flow.stream_to_quic (reads_of stream_timeout flush_interval rounds) u)
  unfolding s2q_task q2s_task s2q_ends q2s_ends left end_task
  one_direction stream_timeout flush_interval ra rb ca cb rounds quic_send stream_write cs u same
        w =
      let t =
        run_decoder-run_encoder h law stream_timeout flush_interval rounds
          (record { codec = ra.s2q_pair.encoder; writer = quic_send; stats = no_stats })
          (record { codec = rb.q2s_pair.decoder; writer = stream_write; stats = no_stats }) cs u
          w.send_free same.0 same.1 w.write_free w.accepts_end w.ended w.sent w.same_start w.room in
      record {
        transparent = t;
        sender_keeps =
            ap
              (λ p.
                left z new_encoder new_decoder p ra.s2q_id
                  (record ra.s2q_pair {
                    encoder =
                        (s2q_task z new_encoder new_decoder stream_timeout flush_interval ra rounds
                          quic_send).state.codec;
                  })
                  ca)
              t.sender_ends;
        receiver_keeps =
            ap
              (λ p.
                left z new_encoder new_decoder p rb.q2s_id
                  (record rb.q2s_pair {
                    decoder =
                        (q2s_task z new_encoder new_decoder rb (arriving cs)
                          stream_write).state.codec;
                  })
                  cb)
              t.receiver_ends;
      }

  -- The tables of two sides are maps without a pair under 0 that agree in both directions, their new
  -- ids are not known to the other, and a new encoder and decoder are in step with nothing pending.
  -- Once both complete the handshake, a direction from one to the other that ends by end of file
  -- over writers that do not fail, and whose compressed bytes arrive in any division, is a plain
  -- copy, whatever the other direction does: the receiver writes what `copy_loop` writes without a
  -- codec to a writer with the room, and its end; both of its tasks end clean and check their pair
  -- in, with codecs in step again.
  pub start_flowing_with_codec-Served :
      (fresh_a fresh_b : ℕ) (a b a' b' : Table) (ra rb : Side) (stream_timeout flush_interval : ℕ)
      (rounds : List Round) (quic_send stream_write : Sink) (cs : Chunks) (u : Flow.Direction)
      → InStep new_encoder new_decoder
      → Ready InStep fresh_a a b
      → Ready InStep fresh_b b a
      → start_flowing_with_codec z new_encoder new_decoder true true a (side fresh_a a fresh_b b)
        ≡ (compressed ra, a')
      → start_flowing_with_codec z new_encoder new_decoder true true b (side fresh_b b fresh_a a)
        ≡ (compressed rb, b')
      → Whole stream_timeout flush_interval ra rounds quic_send stream_write cs u
      → Served ra rb a' b'
          (s2q_task z new_encoder new_decoder stream_timeout flush_interval ra rounds quic_send)
          (q2s_task z new_encoder new_decoder rb (arriving cs) stream_write)
          (Flow.copy_loop Flow.stream_to_quic (reads_of stream_timeout flush_interval rounds) u)
  start_flowing_with_codec-Served fresh_a fresh_b a b a' b' ra rb stream_timeout flush_interval
        rounds quic_send stream_write cs u made ready_a ready_b ea eb w =
      let synced =
        exchange_pair_id-sync InStep made fresh_a fresh_b a b a' b' ra rb ready_a ready_b
          (shaken (side fresh_a a fresh_b b) a ra a' ea)
          (shaken (side fresh_b b fresh_a a) b rb b' eb) in
      one_direction stream_timeout flush_interval ra rb a' b' rounds quic_send stream_write cs u
        synced.0 w

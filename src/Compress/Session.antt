-- ===== src/Compress/Session.antt =====
-- A stream between two sides from its handshake to its end: `start_flowing_with_codec` of
-- src/codec/mod.rs, without HTTP.
use rstun.Base.{ℕ, Bool, List, if◌then◌else◌, Result, ok, err}
use rstun.Http
use rstun.Codec.{Codecs, CodecPair, Cache, HandshakeError, HandshakeResult, end_task}
use rstun.Compress.{
  Zstd, CodecStats, Sink, Progress, waiting, out_of_fuel, returned, Ran, Round, run_basic,
  run_decoder,
}

-- `CodecStats::default`.
abbrev pub no_stats : CodecStats
no_stats = record { up_raw = 0; up_compressed = 0; down_compressed = 0; down_decompressed = 0 }

module _ (z : Zstd) (new_encoder : z.Encoder) (new_decoder : z.Decoder) where
  abbrev pub codecs : Codecs
  codecs = record {
    Encoder = z.Encoder;
    Decoder = z.Decoder;
    new_encoder = new_encoder;
    new_decoder = new_decoder;
  }

  -- What a stream is started as: without a codec, not at all, or with the pairs of its handshake.
  pub data Flowing : Type 0 where
    plain : Flowing
    no_peer_address : Flowing
    handshake_failed : HandshakeError → Flowing
    compressed : HandshakeResult codecs → Flowing

  unfoldable pub after_handshake : Result HandshakeError (HandshakeResult codecs) → Flowing
  after_handshake (ok r) = compressed r
  after_handshake (err e) = handshake_failed e

  -- `has_peer` is whether the local stream has a peer address; the handshake runs only if it does.
  unfoldable pub start_flowing_with_codec :
      Bool
      → Bool
      → Cache codecs
      → Result HandshakeError (HandshakeResult codecs) × Cache codecs
      → Flowing × Cache codecs
  unfolding after_handshake
  start_flowing_with_codec enabled has_peer c handshake =
      if enabled
      then if has_peer then (after_handshake (handshake.0), handshake.1) else (no_peer_address, c)
      else (plain, c)

  -- The two tasks, each with its half of its pair.
  unfoldable pub s2q_task : ℕ → ℕ → HandshakeResult codecs → List Round → Sink → Ran z.Encoder
  s2q_task stream_timeout flush_interval r rounds quic_send =
      run_basic z stream_timeout flush_interval rounds
        (record { codec = r.s2q_pair.encoder; writer = quic_send; stats = no_stats })

  unfoldable pub q2s_task : HandshakeResult codecs → List Http.Read → Sink → Ran z.Decoder
  q2s_task r reads stream_write =
      run_decoder z reads
        (record { codec = r.q2s_pair.decoder; writer = stream_write; stats = no_stats })

  -- The end of a task that returned: its pair, with the state that its codec has by then.
  unfoldable pub left : Progress → ℕ → CodecPair codecs → Cache codecs → Cache codecs
  left waiting id p c = c
  left out_of_fuel id p c = c
  left (returned outcome) id p c = end_task outcome id p c

  unfoldable pub s2q_ends : HandshakeResult codecs → Ran z.Encoder → Cache codecs → Cache codecs
  unfolding left
  s2q_ends r a c = left a.progress r.s2q_id (record r.s2q_pair { encoder = a.state.codec }) c

  unfoldable pub q2s_ends : HandshakeResult codecs → Ran z.Decoder → Cache codecs → Cache codecs
  unfolding left
  q2s_ends r b c = left b.progress r.q2s_id (record r.q2s_pair { decoder = b.state.codec }) c

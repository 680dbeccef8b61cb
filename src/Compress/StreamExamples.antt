-- ===== src/Compress/StreamExamples.antt =====
-- A compressed stream of src/codec/mod.rs at concrete sides, of which one lost a pair.
use rstun.Base.{◌≡◌, refl, true, false, none, [], ◌∷◌, arith}
use rstun.Flow.Copy.{arrived, ends}
use rstun.Flow
use rstun.Compress.{Sink, write_compressed, flush_encoder, run_basic}
use rstun.Compress.Sender.{reads_of}
use rstun.Compress.Receiver.{arriving}
use rstun.Codec.{
  Cache, HandshakeResult, side, exchange_pair_id, checkout, first_healthy, lookup, answer, settle,
  get, remove,
}
use rstun.Codec.Sync.{Ready}
use rstun.Compress.Session.{
  codecs, s2q_task, q2s_task, start_flowing_with_codec, after_handshake, compressed,
}
use rstun.Compress.Served.{InStep, Whole, Served, start_flowing_with_codec-Served}
use rstun.Compress.Buffering.{
  buffering, history, history-Lawful, clean, three_bytes, room_for_three,
}

-- A's table is empty; B has a pair under 6 that A has lost.
abbrev table_a : Cache (codecs buffering ([], []) [])
table_a = []

abbrev table_b : Cache (codecs buffering ([], []) [])
table_b = (6, record { encoder = (7 ∷ [], []); decoder = []; errored = false }) ∷ []

a-Ready : Ready (InStep history history-Lawful ([], []) []) 8 table_a table_b
unfolding get
a-Ready = record {
  distinct = tt;
  agree = λ i p q h h' e e'. (cc, cc);
  no_zero = refl;
  not_zero = λ h. omega (arith, h);
  new_id = refl;
}

b-Ready : Ready (InStep history history-Lawful ([], []) []) 9 table_b table_a
unfolding get
b-Ready = record {
  distinct = (refl, tt);
  agree = λ i p q h h' e e'. (cc, cc);
  no_zero = refl;
  not_zero = λ h. omega (arith, h);
  new_id = refl;
}

abbrev result_a : HandshakeResult (codecs buffering ([], []) [])
result_a = record {
  s2q_pair = record { encoder = ([], []); decoder = []; errored = false };
  q2s_pair = record { encoder = ([], []); decoder = []; errored = false };
  s2q_id = 8;
  s2q_ack = 0;
  q2s_id = 6;
  q2s_ack = 0;
}

abbrev result_b : HandshakeResult (codecs buffering ([], []) [])
result_b = record result_a { s2q_id = 6; q2s_id = 8 }

flows_a :
    start_flowing_with_codec buffering ([], []) [] true true table_a (side 8 table_a 9 table_b)
    ≡ (compressed result_a, [])
unfolding start_flowing_with_codec after_handshake exchange_pair_id checkout first_healthy lookup
    answer settle get remove
flows_a = refl

flows_b :
    start_flowing_with_codec buffering ([], []) [] true true table_b (side 9 table_b 8 table_a)
    ≡ (compressed result_b, [])
unfolding start_flowing_with_codec after_handshake exchange_pair_id checkout first_healthy lookup
    answer settle get remove
flows_b = refl

abbrev sink : Sink
sink = record { bytes = []; limit = none; accepts_end = true; ended = false }

a-Whole :
    Whole history history-Lawful
      ([], [])
      []
      30000
      150
      result_a
      clean
      sink
      sink
      three_bytes
      room_for_three
unfolding s2q_task run_basic reads_of arrived ends write_compressed flush_encoder
a-Whole = record {
  send_free = refl;
  write_free = refl;
  accepts_end = refl;
  ended = refl;
  sent = refl;
  same_start = refl;
  room = omega arith;
}

start_flowing_with_codec-Served_example :
    Served history history-Lawful
      ([], [])
      []
      result_a
      result_b
      []
      []
      (s2q_task buffering ([], []) [] 30000 150 result_a clean sink)
      (q2s_task buffering ([], []) [] result_b (arriving three_bytes) sink)
      (Flow.copy_loop Flow.stream_to_quic (reads_of 30000 150 clean) room_for_three)
start_flowing_with_codec-Served_example =
    start_flowing_with_codec-Served history history-Lawful ([], []) [] 8 9 table_a table_b [] []
      result_a result_b 30000 150 clean sink sink three_bytes room_for_three (refl, refl) a-Ready
      b-Ready flows_a flows_b a-Whole

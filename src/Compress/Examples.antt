-- ===== src/Compress/Examples.antt =====
-- The compressed stream of src/codec/mod.rs with a codec that only buffers, at concrete streams.
use rstun.Base.{ℕ, ◌≢◌, refl, true, false, none, some, List, [], ◌∷◌, ◌++◌, arith}
use rstun.Http
use rstun.Http.{Httparse, complete, invalid, read_message}
use rstun.Codec.{HandshakeResult, timeout}
use rstun.Compress.{
  Sink, Direction, Round, returned, write_compressed, flush_encoder, run_basic, run_http,
  run_decoder,
}
use rstun.Compress.Receiver.{arriving}
use rstun.Compress.Sender.{reads_of}
use rstun.Flow.Copy.{arrived, ends}
use rstun.Compress.Leftover.{Leftover, at_once, then_fails, s2q_task-Leftover}
use rstun.Compress.HttpMode.{Delivers, run_http-Delivers}
use rstun.Compress.Session.{no_stats, codecs, s2q_task, q2s_task}
use rstun.Compress.Idle.{run_basic-ne-timeout}
use rstun.Compress.Buffering.{buffering, history, history-Lawful}

abbrev to_quic : Direction (List ℕ × List ℕ)
to_quic = record {
  codec = ([], []);
  writer = record { bytes = []; limit = none; accepts_end = true; ended = false };
  stats = no_stats;
}

abbrev to_tcp : Direction (List ℕ)
to_tcp = record {
  codec = [];
  writer = record { bytes = []; limit = none; accepts_end = true; ended = false };
  stats = no_stats;
}

abbrev first : HandshakeResult (codecs buffering ([], []) [])
first = record {
  s2q_pair = record { encoder = ([], []); decoder = []; errored = false };
  q2s_pair = record { encoder = ([], []); decoder = []; errored = false };
  s2q_id = 8;
  s2q_ack = 8;
  q2s_id = 8;
  q2s_ack = 8;
}

-- Two bytes, and the connection is reset before the flush; the encoder of the next stream holds them.
abbrev second : HandshakeResult (codecs buffering ([], []) [])
second = record first { s2q_pair = record first.s2q_pair { encoder = (1 ∷ 2 ∷ [], 1 ∷ 2 ∷ []) } }

abbrev next_stream : List Round
next_stream = at_once (some (7 ∷ [])) ∷ at_once (some []) ∷ []

abbrev sink : Sink
sink = record { bytes = []; limit = none; accepts_end = true; ended = false }

s2q_task-Leftover_example :
    Leftover history history-Lawful
      ([], [])
      []
      30000
      150
      (1 ∷ 2 ∷ [])
      (7 ∷ [])
      first
      first
      []
      []
      []
      []
      []
      (1 ∷ 2 ∷ [], 1 ∷ 2 ∷ [])
      (s2q_task buffering ([], []) [] 30000 150 first (then_fails 1 (2 ∷ [])) sink)
      (q2s_task buffering ([], []) [] first (arriving []) sink)
      (q2s_task buffering ([], []) [] first (arriving ((1, 2 ∷ 7 ∷ []) ∷ [])) sink)
unfolding s2q_task q2s_task run_basic reads_of arrived ends run_decoder write_compressed
    flush_encoder
s2q_task-Leftover_example =
    s2q_task-Leftover history history-Lawful ([], []) [] 30000 150 1 (2 ∷ [])
      (1 ∷ 2 ∷ [], 1 ∷ 2 ∷ []) first first second first [] [] sink sink sink sink next_stream
      ((1, 2 ∷ 7 ∷ []) ∷ []) (refl, refl) refl refl refl refl refl refl refl refl refl refl

-- A head without a content length, then a body until the end.
abbrev no_length : Httparse
no_length = record { parse_request = λ bs. complete (some 1) []; parse_response = λ bs. invalid }

abbrev http_reads : List Http.Read
http_reads = Http.bytes (71 ∷ 13 ∷ 10 ∷ 13 ∷ 10 ∷ []) ∷ Http.bytes (7 ∷ []) ∷ Http.bytes [] ∷ []

run_http-Delivers_example :
    Delivers history history-Lawful no_length
      (read_message no_length Http.new http_reads)
      (Http.new.buf ++ (71 ∷ 13 ∷ 10 ∷ 13 ∷ 10 ∷ 7 ∷ []))
      to_tcp
      (run_http buffering no_length 9 Http.new http_reads to_quic)
      (run_decoder buffering (arriving ((71, 13 ∷ 10 ∷ 13 ∷ 10 ∷ 7 ∷ []) ∷ [])) to_tcp)
unfolding run_http write_compressed flush_encoder read_message Http.read_loop Http.try_parse
    Http.find_header_end Http.parse_head Http.cut_message Http.content_length
run_http-Delivers_example =
    run_http-Delivers history history-Lawful no_length 9 Http.new http_reads to_quic to_tcp
      ((71, 13 ∷ 10 ∷ 13 ∷ 10 ∷ 7 ∷ []) ∷ []) (omega arith) refl refl refl refl refl refl

run_basic-ne-timeout_example :
    (run_basic buffering 30000 150
      (record { delay = 90000; sleep_first = true; read = none } ∷ [])
      to_quic).progress
    ≢ returned timeout
run_basic-ne-timeout_example =
    run_basic-ne-timeout buffering 30000 150
      (record { delay = 90000; sleep_first = true; read = none } ∷ []) to_quic (omega arith)

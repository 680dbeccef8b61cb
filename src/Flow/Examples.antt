-- ===== src/Flow/Examples.antt =====
-- The copying of a stream, src/util/stream_util.rs, at concrete inputs.
use rstun.Base.{◌≡◌, refl, true, false, List, [], ◌∷◌, ℕ, Result, ok, err}
use rstun.Io.{ReadError, timed_out}
use rstun.Flow.{Direction, copy_loop, stream_to_quic, waits_for_other}
use rstun.Flow.Tasks.{Tasks, waiting, released}

-- A writer that takes four more bytes and accepts the end.
abbrev four_more : Direction
four_more = record {
  writer = record { bytes = []; room = 4; accepts_end = true; ended = false };
  transfer_bytes = 0;
}

abbrev two_chunks : List (Result ReadError (List ℕ))
two_chunks = ok (1 ∷ 2 ∷ []) ∷ ok (3 ∷ []) ∷ ok [] ∷ []

abbrev idle : List (Result ReadError (List ℕ))
idle = ok (1 ∷ []) ∷ err timed_out ∷ []

copied_whole :
    (copy_loop stream_to_quic two_chunks four_more).direction.writer.bytes ≡ 1 ∷ 2 ∷ 3 ∷ []
unfolding copy_loop stream_to_quic
copied_whole = refl

copied_end : (copy_loop stream_to_quic two_chunks four_more).direction.writer.ended ≡ true
unfolding copy_loop stream_to_quic
copied_end = refl

idle_waits : (copy_loop stream_to_quic idle four_more).ending ≡ waits_for_other
unfolding copy_loop stream_to_quic
idle_waits = refl

abbrev q2s_released : Tasks
q2s_released = record { q2s = released; s2q = waiting; q2s_timed_out = true; s2q_timed_out = true }

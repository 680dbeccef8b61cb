-- ===== src/Heartbeat/Examples.antt =====
-- The heartbeat loops on a few rounds, and their theorems at concrete rounds.
use rstun.Base.{ℕ, ◌^◌, ◌≡◌, refl, true, false, some, List, [], ◌∷◌, get_elem?, map, ◌-◌}
use rstun.Message.{req_heartbeat, resp_heartbeat}
use rstun.Heartbeat.{
  Round, too_late, client_heartbeat, heartbeat_timeout, seq_mismatch, server_heartbeat, running,
}
use rstun.Heartbeat.Laws.{deliver, requests, client_heartbeat-server_heartbeat}

abbrev no_answer : Round
no_answer = record { should_stop = false; sends = true; received = too_late }

-- An answer, a wrong number, and silence.
abbrev three_rounds : List Round
three_rounds = deliver (resp_heartbeat 1) ∷ deliver (resp_heartbeat 9) ∷ no_answer ∷ []

three_rounds_trace : client_heartbeat 0 three_rounds ≡ record {
  sent = req_heartbeat 1 ∷ req_heartbeat 2 ∷ req_heartbeat 3 ∷ [];
  warnings = seq_mismatch 2 9 ∷ [];
  outcome = heartbeat_timeout 3;
}
unfolding client_heartbeat
three_rounds_trace = refl

third_request : get_elem? (client_heartbeat 0 three_rounds).sent 2 ≡ some (req_heartbeat 3)
unfolding client_heartbeat
third_request = refl

-- Across the wrap of the counter.
client_heartbeat-server_heartbeat_example :
    let replies = (server_heartbeat (map deliver (requests (2 ^ 64 - 2) 3))).replies in
    let t = client_heartbeat (2 ^ 64 - 2) (map deliver replies) in
    (t.sent ≡ requests (2 ^ 64 - 2) 3)
    × (t.warnings ≡ [])
    × ((seq' : ℕ) × (t.outcome ≡ running seq'))
client_heartbeat-server_heartbeat_example = client_heartbeat-server_heartbeat (2 ^ 64 - 2) 3

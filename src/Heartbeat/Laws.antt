-- ===== src/Heartbeat/Laws.antt =====
-- The heartbeat loops of src/heartbeat.rs: numbering, timeouts, answers, and the two against one
-- another.
use rstun.Base.{
  ℕ, zero, suc, ◌+◌, ◌%◌, ◌^◌, ◌<◌, ◌≤◌, ◌≡◌, refl, ap, ◌∙◌, true, false, some, List, [], ◌∷◌,
  arith, length, get_elem?, lt-length_of_get_elem?, map, ==_refl,
}
use rstun.Message.{
  TunnelMessage, req_login, req_heartbeat, resp_heartbeat, resp_failure, resp_success,
}
use rstun.Heartbeat.{Round, message, running, client_heartbeat, next_seq, server_heartbeat}

-- The number after `seq`, `i` steps on.
seq_shift : (seq i : ℕ) → (next_seq seq + i + 1) % 2 ^ 64 ≡ (seq + suc i + 1) % 2 ^ 64
seq_shift seq i = omega arith

client_heartbeat-numbered_from :
    (rs : List Round) (seq i : ℕ) (m : TunnelMessage)
    → get_elem? (client_heartbeat seq rs).sent i ≡ some m
    → m ≡ req_heartbeat ((seq + i + 1) % 2 ^ 64)
unfolding client_heartbeat
client_heartbeat-numbered_from [] seq i m h = cc
client_heartbeat-numbered_from (r ∷ rs) seq zero m h = ground arith
client_heartbeat-numbered_from (r ∷ rs) seq (suc i) m h =
    ground (arith, client_heartbeat-numbered_from rs (next_seq seq) i m, seq_shift seq i)

client_heartbeat-length :
    (rs : List Round) (seq : ℕ) → length (client_heartbeat seq rs).sent ≤ length rs
unfolding client_heartbeat
client_heartbeat-length [] seq = omega arith
client_heartbeat-length (r ∷ rs) seq = ground (arith, client_heartbeat-length rs (next_seq seq))

-- Before it has wrapped, the client's requests are numbered 1, 2, 3, … in the order sent, one at
-- most for each round, whatever is read in between.
client_heartbeat-numbered :
    (rs : List Round) (i : ℕ) (m : TunnelMessage)
    → length rs < 2 ^ 64
    → get_elem? (client_heartbeat 0 rs).sent i ≡ some m
    → (m ≡ req_heartbeat (i + 1)) × (i < length rs)
client_heartbeat-numbered rs i m small h =
    let below = lt-length_of_get_elem? (client_heartbeat 0 rs).sent i h in
    (
      client_heartbeat-numbered_from rs 0 i m h
          ∙ ap req_heartbeat (omega (arith, below, client_heartbeat-length rs 0)),
      omega (arith, below, client_heartbeat-length rs 0),
    )

-- The requests that follow the number `seq`.
abbrev pub requests : ℕ → ℕ → List TunnelMessage
requests seq zero = []
requests seq (suc n) = req_heartbeat (next_seq seq) ∷ requests (next_seq seq) n

abbrev pub deliver : TunnelMessage → Round
deliver m = record { should_stop = false; sends = true; received = message m }

-- The answers that the protocol asks for: one to each heartbeat request, none to anything else.
abbrev pub answers : List TunnelMessage → List TunnelMessage
answers [] = []
answers (req_heartbeat seq ∷ ms) = resp_heartbeat seq ∷ answers ms
answers (req_login info ∷ ms) = answers ms
answers (resp_heartbeat n ∷ ms) = answers ms
answers (resp_failure msg ∷ ms) = answers ms
answers (resp_success caps ∷ ms) = answers ms

-- While it is not stopped and its writes succeed, the server answers every heartbeat request with
-- its number, in order, answers nothing else, and goes on.
pub server_heartbeat-answers :
    (ms : List TunnelMessage)
    → ((server_heartbeat (map deliver ms)).replies ≡ answers ms)
      × ((server_heartbeat (map deliver ms)).result ≡ running 0)
unfolding server_heartbeat
server_heartbeat-answers [] = (refl, refl)
server_heartbeat-answers (req_heartbeat seq ∷ ms) = ground (arith, server_heartbeat-answers ms)
server_heartbeat-answers (_ ∷ ms) = server_heartbeat-answers ms

client_heartbeat-answered :
    (seq n : ℕ)
    → ((client_heartbeat seq (map deliver (answers (requests seq n)))).sent ≡ requests seq n)
      × ((client_heartbeat seq (map deliver (answers (requests seq n)))).warnings ≡ [])
      × ((seq' : ℕ) × ((client_heartbeat seq (map deliver (answers (requests seq n)))).outcome
            ≡ running seq'))
unfolding client_heartbeat
client_heartbeat-answered seq zero = (refl, refl, (seq, refl))
client_heartbeat-answered seq (suc n) =
    ground (arith, client_heartbeat-answered (next_seq seq) n, ==_refl (next_seq seq))

-- The two loops against one another: when the server reads `n` consecutive requests and the client
-- reads its replies, the client sends exactly those requests, warns of nothing, and goes on.
pub client_heartbeat-server_heartbeat :
    (seq n : ℕ)
    → let replies = (server_heartbeat (map deliver (requests seq n))).replies in
      let t = client_heartbeat seq (map deliver replies) in
      (t.sent ≡ requests seq n) × (t.warnings ≡ []) × ((seq' : ℕ) × (t.outcome ≡ running seq'))
client_heartbeat-server_heartbeat seq n =
    rw ((server_heartbeat-answers (requests seq n)).0) (client_heartbeat-answered seq n)

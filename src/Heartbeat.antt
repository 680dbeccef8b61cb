-- ===== src/Heartbeat.antt =====
-- The heartbeat loops of src/heartbeat.rs. Each round of a loop is given by what its surroundings
-- do in it: whether the program is stopping, whether the write succeeds, and what is read.
pub mod Laws
mod Examples
use rstun.Base.{ℕ, ◌+◌, ◌%◌, ◌^◌, Bool, true, false, List, [], ◌∷◌, ◌==◌, if◌then◌else◌, ◌++◌}
use rstun.Message.{
  TunnelMessage, req_login, req_heartbeat, resp_heartbeat, resp_failure, resp_success,
}

-- What `TunnelMessage::recv_from` gives, within the heartbeat's timeout.
pub data Received : Type 0 where
  message : TunnelMessage → Received
  broken : Received
  too_late : Received

pub record Round : Type 0 where
  pub should_stop : Bool
  pub sends : Bool
  pub received : Received

-- `Ok(())`, an I/O error, the bail-out on a timeout with its sequence number, or a loop that still
-- runs when the given rounds are over.
pub data Outcome : Type 0 where
  stopped : Outcome
  io_error : Outcome
  heartbeat_timeout : ℕ → Outcome
  running : ℕ → Outcome

-- The warnings of the client, which go on with the loop.
pub data Warning : Type 0 where
  seq_mismatch : ℕ → ℕ → Warning
  unexpected_response : TunnelMessage → Warning

pub record Trace : Type 0 where
  pub sent : List TunnelMessage
  pub warnings : List Warning
  pub outcome : Outcome

check_response : ℕ → TunnelMessage → List Warning
check_response seq (resp_heartbeat resp_seq) =
    if resp_seq == seq then [] else seq_mismatch seq resp_seq ∷ []
check_response seq (req_login info) = unexpected_response (req_login info) ∷ []
check_response seq (req_heartbeat n) = unexpected_response (req_heartbeat n) ∷ []
check_response seq (resp_failure msg) = unexpected_response (resp_failure msg) ∷ []
check_response seq (resp_success caps) = unexpected_response (resp_success caps) ∷ []

-- `seq.wrapping_add(1)` on a `u64`.
abbrev pub next_seq : ℕ → ℕ
next_seq seq = (seq + 1) % 2 ^ 64

-- What one round adds in front of the trace of the rounds after it.
prepend : TunnelMessage → List Warning → Trace → Trace
prepend m ws t = record t { sent = m ∷ t.sent; warnings = ws ++ t.warnings }

abbrev ends : List TunnelMessage → Outcome → Trace
ends ms o = record { sent = ms; warnings = []; outcome = o }

after_send : ℕ → Received → Trace → Trace
unfolding prepend check_response
after_send seq (message m) rest = prepend (req_heartbeat seq) (check_response seq m) rest
after_send seq broken rest = ends (req_heartbeat seq ∷ []) io_error
after_send seq too_late rest = ends (req_heartbeat seq ∷ []) (heartbeat_timeout seq)

-- `seq` is the number that the loop has reached; the program starts it at 0.
unfoldable pub client_heartbeat : ℕ → List Round → Trace
unfolding after_send
client_heartbeat seq [] = ends [] (running seq)
client_heartbeat seq (r ∷ rs) =
    let rest = client_heartbeat (next_seq seq) rs in
    if r.should_stop
    then ends [] stopped
    else if r.sends
    then after_send (next_seq seq) r.received rest
    else ends [] io_error

-- The server's answers to what it reads. A read that comes too late is one that never comes: the
-- server waits without a timeout.
pub record ServerTrace : Type 0 where
  pub replies : List TunnelMessage
  pub ignored : List TunnelMessage
  pub result : Outcome

abbrev server_ends : Outcome → ServerTrace
server_ends o = record { replies = []; ignored = []; result = o }

ignore : TunnelMessage → ServerTrace → ServerTrace
ignore m t = record t { ignored = m ∷ t.ignored }

respond : Bool → TunnelMessage → ServerTrace → ServerTrace
unfolding ignore
respond sends (req_heartbeat seq) rest =
    if sends
    then record rest { replies = resp_heartbeat seq ∷ rest.replies }
    else server_ends io_error
respond sends (req_login info) rest = ignore (req_login info) rest
respond sends (resp_heartbeat n) rest = ignore (resp_heartbeat n) rest
respond sends (resp_failure msg) rest = ignore (resp_failure msg) rest
respond sends (resp_success caps) rest = ignore (resp_success caps) rest

serve_received : Bool → Received → ServerTrace → ServerTrace
unfolding respond
serve_received sends (message m) rest = respond sends m rest
serve_received sends broken rest = server_ends io_error
serve_received sends too_late rest = server_ends (running 0)

unfoldable pub server_heartbeat : List Round → ServerTrace
unfolding serve_received
server_heartbeat [] = server_ends (running 0)
server_heartbeat (r ∷ rs) =
    let rest = server_heartbeat rs in
    if r.should_stop then server_ends stopped else serve_received r.sends r.received rest

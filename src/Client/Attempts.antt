-- ===== src/Client/Attempts.antt =====
-- The login of one connection attempt of src/client.rs.
use rstun.Base.{ℕ, ◌≡◌, refl, some, [], ◌∷◌, Result, ok, err}
use rstun.Net.{Text, ServerCapabilities}
use rstun.Events.{connecting, connected}
use rstun.Message.{
  TunnelMessage, req_login, req_heartbeat, resp_heartbeat, resp_failure, resp_success,
}
use rstun.Client.{
  State, Stage, done, stage_timed_out, stage_failed, stage_aborted, ClientError, stage_error,
  login_failed, unexpected_response, Stages, Attempt, login,
}

-- A login that succeeds went through all its stages and was answered by success.
pub record LoggedIn (stages : Stages) (s : State) (conn : ℕ) (a : Attempt) : Type 0 where
  pub caps : ServerCapabilities
  pub connected_first : stages.connect ≡ done conn
  pub opened : stages.open_bi ≡ done tt
  pub request_sent : stages.send_request ≡ done tt
  pub response : stages.receive_response ≡ done (resp_success caps)
  pub remembered : a.state ≡ record s { server_ipv6_supported = some caps.ipv6_supported }
  pub posted : a.posted ≡ connecting ∷ connected ∷ []

abbrev Missed : {A : Type 0} → Stage A → Type 0
Missed (done a) = ⊥
Missed stage_timed_out = Unit
Missed stage_failed = Unit
Missed stage_aborted = Unit

abbrev IsResponse : TunnelMessage → Type 0
IsResponse (resp_success caps) = Unit
IsResponse (resp_failure text) = Unit
IsResponse (req_login info) = ⊥
IsResponse (req_heartbeat seq) = ⊥
IsResponse (resp_heartbeat seq) = ⊥

-- The connection stands and its stream took the request.
pub record Asked (stages : Stages) : Type 0 where
  pub conn : ℕ
  pub connected_first : stages.connect ≡ done conn
  pub opened : stages.open_bi ≡ done tt
  pub request_sent : stages.send_request ≡ done tt

-- What went wrong, by the error that is returned.
pub data Fault (stages : Stages) : ClientError → Type 0 where
  no_connection : Missed stages.connect → Fault stages stage_error
  no_stream : Missed stages.open_bi → Fault stages stage_error
  not_sent : Missed stages.send_request → Fault stages stage_error
  no_response : Missed stages.receive_response → Fault stages stage_error
  refused :
      (text : Text)
      → Asked stages
      → stages.receive_response ≡ done (resp_failure text)
      → Fault stages login_failed
  no_answer :
      (m : TunnelMessage)
      → Asked stages
      → stages.receive_response ≡ done m
      → (IsResponse m → ⊥)
      → Fault stages unexpected_response

-- One that fails leaves the state as it was and never says that the tunnel is connected.
pub record NotLoggedIn (stages : Stages) (s : State) (e : ClientError) (a : Attempt) : Type 0 where
  pub fault : Fault stages e
  pub unchanged : a.state ≡ s
  pub posted : a.posted ≡ connecting ∷ []

abbrev pub OutcomeOf : Result ClientError ℕ → Stages → State → Attempt → Type 0
OutcomeOf (ok conn) stages s a = LoggedIn stages s conn a
OutcomeOf (err e) stages s a = NotLoggedIn stages s e a

abbrev pub LoginOutcome : Stages → State → Attempt → Type 0
LoginOutcome stages s a = OutcomeOf a.result stages s a

-- Stages by their four results.
abbrev stages_of : Stage ℕ → Stage (Unit {0}) → Stage (Unit {0}) → Stage TunnelMessage → Stages
stages_of c o q r = record { connect = c; open_bi = o; send_request = q; receive_response = r }

asked : (c : ℕ) (r : Stage TunnelMessage) → Asked (stages_of (done c) (done tt) (done tt) r)
asked c r = record { conn = c; connected_first = refl; opened = refl; request_sent = refl }

outcome_of :
    (c : Stage ℕ) (o q : Stage (Unit {0})) (r : Stage TunnelMessage) (s : State)
    → LoginOutcome (stages_of c o q r) s (login (stages_of c o q r) s)
unfolding login
outcome_of stage_timed_out o q r s = record {
  fault = no_connection tt;
  unchanged = refl;
  posted = refl;
}
outcome_of stage_failed o q r s = record {
  fault = no_connection tt;
  unchanged = refl;
  posted = refl;
}
outcome_of stage_aborted o q r s = record {
  fault = no_connection tt;
  unchanged = refl;
  posted = refl;
}
outcome_of (done c) stage_timed_out q r s = record {
  fault = no_stream tt;
  unchanged = refl;
  posted = refl;
}
outcome_of (done c) stage_failed q r s = record {
  fault = no_stream tt;
  unchanged = refl;
  posted = refl;
}
outcome_of (done c) stage_aborted q r s = record {
  fault = no_stream tt;
  unchanged = refl;
  posted = refl;
}
outcome_of (done c) (done u) stage_timed_out r s = record {
  fault = not_sent tt;
  unchanged = refl;
  posted = refl;
}
outcome_of (done c) (done u) stage_failed r s = record {
  fault = not_sent tt;
  unchanged = refl;
  posted = refl;
}
outcome_of (done c) (done u) stage_aborted r s = record {
  fault = not_sent tt;
  unchanged = refl;
  posted = refl;
}
outcome_of (done c) (done u) (done v) stage_timed_out s = record {
  fault = no_response tt;
  unchanged = refl;
  posted = refl;
}
outcome_of (done c) (done u) (done v) stage_failed s = record {
  fault = no_response tt;
  unchanged = refl;
  posted = refl;
}
outcome_of (done c) (done u) (done v) stage_aborted s = record {
  fault = no_response tt;
  unchanged = refl;
  posted = refl;
}
outcome_of (done c) (done u) (done v) (done (req_login info)) s = record {
  fault = no_answer (req_login info) (asked c (done (req_login info))) refl (λ h. h);
  unchanged = refl;
  posted = refl;
}
outcome_of (done c) (done u) (done v) (done (req_heartbeat seq)) s = record {
  fault = no_answer (req_heartbeat seq) (asked c (done (req_heartbeat seq))) refl (λ h. h);
  unchanged = refl;
  posted = refl;
}
outcome_of (done c) (done u) (done v) (done (resp_heartbeat seq)) s = record {
  fault = no_answer (resp_heartbeat seq) (asked c (done (resp_heartbeat seq))) refl (λ h. h);
  unchanged = refl;
  posted = refl;
}
outcome_of (done c) (done u) (done v) (done (resp_failure text)) s = record {
  fault = refused text (asked c (done (resp_failure text))) refl;
  unchanged = refl;
  posted = refl;
}
outcome_of (done c) (done u) (done v) (done (resp_success caps)) s = record {
  caps = caps;
  connected_first = refl;
  opened = refl;
  request_sent = refl;
  response = refl;
  remembered = refl;
  posted = refl;
}

-- A login either went through all its stages, the connection, the stream, the request and an answer
-- of success, then the server's capability is remembered and the tunnel is posted as connecting
-- and connected; or a stage was not done, or all were and the server refused or answered by no
-- response, each with its own error, then the state is as it was and the tunnel is posted as
-- connecting only.
pub login-outcome : (stages : Stages) (s : State) → LoginOutcome stages s (login stages s)
login-outcome stages s =
    outcome_of stages.connect stages.open_bi stages.send_request stages.receive_response s

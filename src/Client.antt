-- ===== src/Client.antt =====
-- The client of src/client.rs: its state, a connection attempt with its login and its cached
-- endpoint, the retry loop of a tunnel, and stop. Tasks run in the order of the steps given;
-- during one attempt no other task changes the state.
pub mod Timing
pub mod Address
pub mod Attempts
pub mod Endpoints
pub mod Loop
pub mod Serve
pub mod Receivers
pub mod Tls
pub mod Trust
pub mod CustomSni
pub mod Traffic
mod Examples
use rstun.Base.{
  ℕ, ◌+◌, ◌≡◌, Bool, true, false, not, ◌&&◌, ◌||◌, Option, none, some, List, [], ◌∷◌, ◌++◌,
  if◌then◌else◌, Result, ok, err, map, retain, ◌==◌,
}
use rstun.Net.{SocketAddr, is_ipv6, ServerCapabilities}
use rstun.Events.{TunnelState, connecting, connected, tunneling, reconnecting}
use rstun.Message.{
  TunnelMessage, req_login, req_heartbeat, resp_heartbeat, resp_failure, resp_success,
}
use rstun.TcpServer
use rstun.UdpServer

pub data ClientState : Type 0 where
  idle stopping terminated : ClientState

-- An endpoint, with what its `local_addr` gives.
pub record Endpoint : Type 0 where
  pub socket : ℕ
  pub local_addr : Option SocketAddr

pub record State : Type 0 where
  pub tcp_servers : List (SocketAddr × TcpServer.State)
  pub udp_servers : List (SocketAddr × UdpServer.State)
  pub tcp_receivers : List (SocketAddr × ℕ)
  pub endpoint : Option Endpoint
  pub connections : List ℕ
  pub server_ipv6_supported : Option Bool
  pub client_state : ClientState

-- `State::new`.
abbrev pub new : State
new = record {
  tcp_servers = [];
  udp_servers = [];
  tcp_receivers = [];
  endpoint = none;
  connections = [];
  server_ipv6_supported = none;
  client_state = idle;
}

abbrev pub is_stopping : ClientState → Bool
is_stopping idle = false
is_stopping stopping = true
is_stopping terminated = true

unfoldable pub should_quit : State → Bool
should_quit s = is_stopping s.client_state

-- What a stage of the login comes to within its timeout; `stage_aborted` when the client stops.
pub data Stage (A : Type 0) : Type 0 where
  done : A → Stage A
  stage_timed_out stage_failed stage_aborted : Stage A

pub data ClientError : Type 0 where
  config_failed endpoint_failed stage_error login_failed unexpected_response : ClientError

-- `run_login_stage`.
abbrev pub run_login_stage : {A : Type 0} → Stage A → Result ClientError A
run_login_stage (done a) = ok a
run_login_stage stage_timed_out = err stage_error
run_login_stage stage_failed = err stage_error
run_login_stage stage_aborted = err stage_error

-- The stages of a login: connect, open the stream, send the request, receive the response.
pub record Stages : Type 0 where
  pub connect : Stage ℕ
  pub open_bi : Stage (Unit {0})
  pub send_request : Stage (Unit {0})
  pub receive_response : Stage TunnelMessage

-- The result, the state after it, and the tunnel states that were posted.
pub record Attempt : Type 0 where
  pub result : Result ClientError ℕ
  pub state : State
  pub posted : List TunnelState

abbrev give_up : ClientError → State → List TunnelState → Attempt
give_up e s posted = record { result = err e; state = s; posted = posted }

answered : ℕ → Result ClientError TunnelMessage → State → Attempt
answered conn (err e) s = give_up e s (connecting ∷ [])
answered conn (ok (resp_failure text)) s = give_up login_failed s (connecting ∷ [])
answered conn (ok (resp_success caps)) s = record {
  result = ok conn;
  state = record s { server_ipv6_supported = some caps.ipv6_supported };
  posted = connecting ∷ connected ∷ [];
}
answered conn (ok (req_login info)) s = give_up unexpected_response s (connecting ∷ [])
answered conn (ok (req_heartbeat seq)) s = give_up unexpected_response s (connecting ∷ [])
answered conn (ok (resp_heartbeat seq)) s = give_up unexpected_response s (connecting ∷ [])

sent : ℕ → Result ClientError (Unit {0}) → Stages → State → Attempt
unfolding answered
sent conn (err e) stages s = give_up e s (connecting ∷ [])
sent conn (ok u) stages s = answered conn (run_login_stage stages.receive_response) s

opened : ℕ → Result ClientError (Unit {0}) → Stages → State → Attempt
unfolding sent
opened conn (err e) stages s = give_up e s (connecting ∷ [])
opened conn (ok u) stages s = sent conn (run_login_stage stages.send_request) stages s

connected_to : Result ClientError ℕ → Stages → State → Attempt
unfolding opened
connected_to (err e) stages s = give_up e s (connecting ∷ [])
connected_to (ok conn) stages s = opened conn (run_login_stage stages.open_bi) stages s

unfoldable pub login : Stages → State → Attempt
unfolding connected_to
login stages s = connected_to (run_login_stage stages.connect) stages s

abbrev is_empty : List ℕ → Bool
is_empty [] = true
is_empty (c ∷ cs) = false

abbrev has : Option Endpoint → Bool
has none = false
has (some e) = true

-- Whether an endpoint was dropped, and the state after it.
unfoldable pub clear_cached_endpoint_if_idle : State → Bool × State
clear_cached_endpoint_if_idle s =
    if is_empty s.connections then (has s.endpoint, record s { endpoint = none }) else (false, s)

unfoldable pub same_family : Option SocketAddr → SocketAddr → Bool
same_family none remote = false
same_family (some a) remote =
    (is_ipv6 a && is_ipv6 remote) || (not (is_ipv6 a) && not (is_ipv6 remote))

-- The cached endpoint that a connection to `remote` uses, if any.
kept_after : Bool × State → Endpoint → Option Endpoint × State
kept_after (reset, s) e = (if reset then none else some e, s)

unfoldable pub cached_endpoint : Option Endpoint → SocketAddr → State → Option Endpoint × State
unfolding kept_after same_family
cached_endpoint none remote s = (none, s)
cached_endpoint (some e) remote s =
    if same_family e.local_addr remote
    then (some e, s)
    else kept_after (clear_cached_endpoint_if_idle s) e

-- `create_client_endpoint`, when there is none to use; what the bind gives is `created`.
unfoldable pub endpoint_for :
    Option Endpoint × State → Option Endpoint → Result ClientError Endpoint × State
endpoint_for (some e, s) created = (ok e, s)
endpoint_for (none, s) none = (err endpoint_failed, s)
endpoint_for (none, s) (some e) = (ok e, record s { endpoint = some e })

login_on : Result ClientError Endpoint × State → Stages → Attempt
login_on (err e, s) stages = give_up e s []
login_on (ok endpoint, s) stages = login stages s

try_connect : Option SocketAddr → Option Endpoint → Stages → State → Attempt
unfolding login_on
try_connect none created stages s = give_up config_failed s []
try_connect (some remote) created stages s =
    login_on (endpoint_for (cached_endpoint s.endpoint remote s) created) stages

-- A failure drops the cached endpoint when no connection uses it, unless the client stops.
after_attempt : Result ClientError ℕ → Attempt → Attempt
after_attempt (ok conn) a = a
after_attempt (err e) a =
    if should_quit a.state
    then a
    else record a { state = (clear_cached_endpoint_if_idle a.state).1 }

-- The remote address that the login configuration gives, if it could be made.
unfoldable pub connect_once : Option SocketAddr → Option Endpoint → Stages → State → Attempt
unfolding try_connect after_attempt
connect_once remote created stages s =
    let a = try_connect remote created stages s in after_attempt a.result a

-- `stop` and `stop_async`: the servers that were shut down, the connections that were closed, and
-- the state at the end.
pub record Stopped : Type 0 where
  pub tcp_down : List TcpServer.State
  pub udp_down : List UdpServer.State
  pub closed : List ℕ
  pub final : State

unfoldable pub stop : State → Stopped
stop s = record {
  tcp_down = map (λ e. TcpServer.shutdown e.1) s.tcp_servers;
  udp_down = map (λ e. e.1) s.udp_servers;
  closed = s.connections;
  final = record s {
    tcp_servers = [];
    udp_servers = [];
    tcp_receivers = [];
    connections = [];
    client_state = terminated;
  };
}

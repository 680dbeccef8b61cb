-- ===== src/Client/Serve.antt =====
-- What the client of src/client.rs keeps between connections for its outbound tunnels: the local
-- servers, `start_tcp_server` and `start_udp_server`, the receivers, `get_or_init_tcp_receiver`, and
-- `serve_outbound_tcp` and `serve_outbound_udp`. Whether a bind works is a parameter.
use rstun.Base.{
  ℕ, zero, suc, Bool, true, false, Option, none, some, List, [], ◌∷◌, if◌then◌else◌, Result, ok,
  err,
}
use rstun.Net.{SocketAddr}
use rstun.Net.Equality.{addr_eq}
use rstun.TcpServer
use rstun.UdpServer

-- `HashMap<SocketAddr, V>`.
module _ {V : Type 0} where
  unfoldable pub get : SocketAddr → List (SocketAddr × V) → Option V
  get a [] = none
  get a ((b, v) ∷ m) = if addr_eq b a then some v else get a m

  unfoldable pub insert : SocketAddr → V → List (SocketAddr × V) → List (SocketAddr × V)
  insert a v [] = (a, v) ∷ []
  insert a v ((b, w) ∷ m) =
      let rest = insert a v m in if addr_eq b a then (a, v) ∷ m else (b, w) ∷ rest

-- Of `State`, what outbound tunnels use.
pub record Servers : Type 0 where
  pub tcp_servers : List (SocketAddr × TcpServer.State)
  pub udp_servers : List (SocketAddr × UdpServer.State)
  pub tcp_receivers : List (SocketAddr × ℕ)

pub data ServeError : Type 0 where
  bind_failed receiver_taken : ServeError

-- `.retry(…with_max_times(retries))` over attempts that bind or not: whether one of them does.
-- Attempts that are not listed fail.
unfoldable pub binds_within : ℕ → List Bool → Bool
binds_within retries [] = false
binds_within zero (b ∷ attempts) = b
binds_within (suc retries) (b ∷ attempts) =
    let rest = binds_within retries attempts in if b then true else rest

-- `with_max_times(10)`.
abbrev pub max_retries : ℕ
max_retries = 10

-- The server's channel is numbered `channel`.
unfoldable pub start_tcp_server :
    SocketAddr → List Bool → ℕ → Servers → Result ServeError TcpServer.State × Servers
start_tcp_server a attempts channel s =
    if binds_within max_retries attempts
    then (
      ok (TcpServer.start a channel),
      record s { tcp_servers = insert a (TcpServer.start a channel) s.tcp_servers },
    )
    else (err bind_failed, s)

unfoldable pub start_udp_server :
    SocketAddr → List Bool → ℕ → Servers → Result ServeError UdpServer.State × Servers
start_udp_server a attempts channel s =
    if binds_within max_retries attempts
    then (
      ok (UdpServer.start a channel),
      record s { udp_servers = insert a (UdpServer.start a channel) s.udp_servers },
    )
    else (err bind_failed, s)

unfoldable pub taken :
    SocketAddr
    → Servers
    → Result TcpServer.TakeError ℕ × TcpServer.State
    → Result ServeError ℕ × Servers
taken a s (ok receiver, server) = (
  ok receiver,
  record s {
    tcp_servers = insert a server s.tcp_servers;
    tcp_receivers = insert a receiver s.tcp_receivers;
  },
)
taken a s (err e, server) =
    (err receiver_taken, record s { tcp_servers = insert a server s.tcp_servers })

unfoldable pub get_or_init :
    Option ℕ → SocketAddr → TcpServer.State → Servers → Result ServeError ℕ × Servers
unfolding taken
get_or_init (some receiver) a server s = (ok receiver, s)
get_or_init none a server s = taken a s (TcpServer.take_receiver server)

-- The server is the one in the table: a handle, so that taking its receiver changes the table.
unfoldable pub get_or_init_tcp_receiver :
    SocketAddr → TcpServer.State → Servers → Result ServeError ℕ × Servers
unfolding get_or_init
get_or_init_tcp_receiver a server s = get_or_init (get a s.tcp_receivers) a server s

unfoldable pub with_tcp_server :
    SocketAddr → Result ServeError TcpServer.State × Servers → Result ServeError ℕ × Servers
with_tcp_server a (ok server, s) = get_or_init_tcp_receiver a server s
with_tcp_server a (err e, s) = (err e, s)

unfoldable pub found_tcp :
    Option TcpServer.State
    → SocketAddr
    → List Bool
    → ℕ
    → Servers
    → Result ServeError TcpServer.State × Servers
found_tcp (some server) a attempts channel s = (ok server, s)
found_tcp none a attempts channel s = start_tcp_server a attempts channel s

-- A connection of an outbound TCP tunnel: the receiver that `TcpTunnel::start_serving` is given.
unfoldable pub serve_outbound_tcp :
    SocketAddr → List Bool → ℕ → Servers → Result ServeError ℕ × Servers
unfolding with_tcp_server found_tcp
serve_outbound_tcp a attempts channel s =
    with_tcp_server a (found_tcp (get a s.tcp_servers) a attempts channel s)

-- When the connection is closed, the outer of the two `wait_for_connection_close`, in
-- `handle_network_based_tunnel`, sees it at once with the inner one, in `serve_outbound_udp`: its
-- `select!` polls the end of the connection first, and drops the task, or it polls the task first.
pub data Race : Type 0 where
  closed_first task_first : Race

-- `put_receiver` behind the inner wait.
unfoldable pub after_wait : Race → ℕ → UdpServer.State → UdpServer.State
after_wait task_first receiver server = UdpServer.put_receiver receiver server
after_wait closed_first receiver server = server

unfoldable pub served_udp :
    Race → Result UdpServer.TakeError ℕ × UdpServer.State → Result ServeError ℕ × UdpServer.State
unfolding after_wait
served_udp race (ok receiver, server) = (ok receiver, after_wait race receiver server)
served_udp race (err e, server) = (err receiver_taken, server)

-- A connection of an outbound UDP tunnel, from the server in the table to the end of the connection.
unfoldable pub serve_outbound_udp : Race → UdpServer.State → Result ServeError ℕ × UdpServer.State
unfolding served_udp
serve_outbound_udp race server = served_udp race (UdpServer.take_receiver server)

-- The connections one after the other.
unfoldable pub udp_connections : List Race → UdpServer.State → List (Result ServeError ℕ)
udp_connections [] server = []
udp_connections (race ∷ races) server =
    let r = serve_outbound_udp race server in r.0 ∷ udp_connections races r.1

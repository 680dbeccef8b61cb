-- ===== src/Server/Sessions.antt =====
-- The sessions of the server of src/server.rs: what `serve` keeps for a connection, and what
-- `clear_expired_sessions` takes away.
use rstun.Base.{
  ℕ, ◌+◌, ◌%◌, ◌^◌, Bool, not, Option, some, List, [], ◌∷◌, ◌++◌, retain, map, Result, ok, err,
  if◌then◌else◌,
}
use rstun.Net.{SocketAddr, UpstreamType, tcp, udp}
use rstun.Server.Login.{
  TunnelType, tcp_out, udp_out, tcp_in, udp_in, dynamic_upstream_tcp_out, dynamic_upstream_udp_out,
}
use rstun.TcpServer
use rstun.UdpServer

-- A connection and the listener's channel whose sender the session holds.
pub record Session : Type 0 where
  pub conn : ℕ
  pub sender : ℕ

pub record State : Type 0 where
  pub connections : List ℕ
  pub tcp_sessions : List Session
  pub udp_sessions : List Session

-- `State::new`.
abbrev pub new : State
new = record { connections = []; tcp_sessions = []; udp_sessions = [] }

unfoldable pub connection_of : TunnelType → ℕ
connection_of (tcp_out conn a) = conn
connection_of (udp_out conn a) = conn
connection_of (tcp_in conn s) = conn
connection_of (udp_in conn s) = conn
connection_of (dynamic_upstream_tcp_out conn) = conn
connection_of (dynamic_upstream_udp_out conn) = conn

-- What the task of the connection goes on with.
pub data Service : Type 0 where
  accepts : Option SocketAddr → UpstreamType → Service
  serves_tcp : ℕ → TcpServer.State → Service
  serves_udp : ℕ → UdpServer.State → Service
  dropped : Service

serve_tcp : Result TcpServer.TakeError ℕ × TcpServer.State → Service
serve_tcp (ok receiver, s) = serves_tcp receiver s
serve_tcp (err e, s) = dropped

serve_udp : Result UdpServer.TakeError ℕ × UdpServer.State → Service
serve_udp (ok receiver, s) = serves_udp receiver s
serve_udp (err e, s) = dropped

-- The task of an authenticated connection, up to its tunnel loop. The dynamic tunnels are given the
-- server's default upstream.
unfoldable pub start_session :
    Option SocketAddr → Option SocketAddr → TunnelType → State → Service × State
unfolding serve_tcp serve_udp
start_session default_tcp default_udp t s =
    let s1 = record s { connections = s.connections ++ connection_of t ∷ [] } in
    elim t [
      | tcp_out conn a ↦ (accepts (some a) tcp, s1)
      | udp_out conn a ↦ (accepts (some a) udp, s1)
      | tcp_in conn server ↦ (
        serve_tcp (TcpServer.take_receiver server),
        record s1 { tcp_sessions = s.tcp_sessions ++ record { conn = conn; sender = conn } ∷ [] },
      )
      | udp_in conn server ↦ (
        serve_udp (UdpServer.take_receiver server),
        record s1 { udp_sessions = s.udp_sessions ++ record { conn = conn; sender = conn } ∷ [] },
      )
      | dynamic_upstream_tcp_out conn ↦ (accepts default_tcp tcp, s1)
      | dynamic_upstream_udp_out conn ↦ (accepts default_udp udp, s1)
    ]

-- The `Quit` messages that were sent, by the type and the channel.
unfoldable pub clear_expired_sessions :
    (closed : ℕ → Bool) → State → List (UpstreamType × ℕ) × State
clear_expired_sessions closed s = (
  map (λ e. (udp, e.sender)) (retain (λ e. closed e.conn) s.udp_sessions)
      ++ map (λ e. (tcp, e.sender)) (retain (λ e. closed e.conn) s.tcp_sessions),
  record {
    connections = retain (λ c. not (closed c)) s.connections;
    tcp_sessions = retain (λ e. not (closed e.conn)) s.tcp_sessions;
    udp_sessions = retain (λ e. not (closed e.conn)) s.udp_sessions;
  },
)

-- The traffic of the open connections, `(rx, tx)` each, on `u64` and `u32`.
unfoldable pub traffic : (closed : ℕ → Bool) → (stats : ℕ → ℕ × ℕ) → List ℕ → (ℕ × ℕ) × ℕ
traffic closed stats connections = go connections (0, 0) 0
  where
    go : List ℕ → ℕ × ℕ → ℕ → (ℕ × ℕ) × ℕ
    go [] bytes active = (bytes, active)
    go (c ∷ cs) bytes active =
        let counted =
          go cs ((bytes.0 + (stats c).0) % 2 ^ 64, (bytes.1 + (stats c).1) % 2 ^ 64)
            ((active + 1) % 2 ^ 32) in
        let skipped = go cs bytes active in if closed c then skipped else counted

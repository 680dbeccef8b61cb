-- ===== src/Udp/Accept.antt =====
-- The accepting side of a UDP tunnel, src/udp/udp_tunnel.rs: `process` with the socket of its flow,
-- `udp_to_quic`, and the accept loops. What the sockets and `accept_bi` do is a parameter.
use rstun.Base.{ℕ, Bool, Option, none, some, List, [], ◌∷◌, if◌then◌else◌, Result, ok, err}
use rstun.Net.{Text, SocketAddr, TunnelTarget}
use rstun.Io.{Reader}
use rstun.Target.{TransferError, read_optional_tunnel_target}
use rstun.Message.{Writer, MessageError, send_raw_to}
use rstun.Message.Raw.{recv_datagrams}
use rstun.TcpTunnel.Accept.{Incoming, stream, timed_out, application_closed, accept_failed}
use rstun.Udp.Ports.{Ports}
use rstun.Udp.Resolve.{Lookup, ResolveError, resolve_upstream}

abbrev pub udp_packet_size : ℕ
udp_packet_size = 1500

-- The sockets of this side: whether a local bind and a connect work, and whether a connected socket
-- takes a datagram.
pub record Sockets : Type 0 where
  pub binds : Bool
  pub connects : SocketAddr → Bool
  pub takes : List ℕ → Bool

pub data ProcessError : Type 0 where
  read_target_failed : TransferError → ProcessError
  not_resolved : ResolveError → ProcessError
  bind_failed connect_failed send_failed : ProcessError

-- What a flow comes to: the upstream its socket was connected to, what was sent there, and the
-- result.
pub record Processed : Type 0 where
  pub connected_to : Option SocketAddr
  pub sent : List (List ℕ)
  pub result : Result ProcessError (Unit {0})

abbrev failed : ProcessError → Processed
failed e = record { connected_to = none; sent = []; result = err e }

-- `create_peer_socket_and_exchange_data`, up to the task of the replies.
unfoldable pub create_peer_socket : Sockets → SocketAddr → Result ProcessError SocketAddr
create_peer_socket s upstream =
    if s.binds
    then if s.connects upstream then ok upstream else err connect_failed
    else err bind_failed

-- The loop over the datagrams of the tunnel: a send that fails ends it with an error.
unfoldable pub send_all : Sockets → SocketAddr → List (List ℕ) → Processed
send_all s upstream [] = record { connected_to = some upstream; sent = []; result = ok tt }
send_all s upstream (p ∷ ps) =
    let rest = send_all s upstream ps in
    if s.takes p
    then record rest { sent = p ∷ rest.sent }
    else record { connected_to = some upstream; sent = []; result = err send_failed }

unfoldable pub over_socket : Sockets → Result ProcessError SocketAddr → List (List ℕ) → Processed
unfolding send_all
over_socket s (ok upstream) datagrams = send_all s upstream datagrams
over_socket s (err e) datagrams = failed e

-- The part of `process` behind the resolution of the upstream.
unfoldable pub exchange : Sockets → Result ResolveError SocketAddr → List (List ℕ) → Processed
unfolding create_peer_socket over_socket
exchange s (ok upstream) datagrams = over_socket s (create_peer_socket s upstream) datagrams
exchange s (err e) datagrams = failed (not_resolved e)

-- The flow behind its target: a read that fails or times out ends the datagrams.
unfoldable pub with_target :
    (lookup_host : Text → ℕ → Lookup)
    → Sockets
    → Option SocketAddr
    → ℕ
    → Result TransferError (Option TunnelTarget × Reader)
    → Processed
with_target lookup_host s upstream_addr fuel (ok (target, r)) =
    exchange s (resolve_upstream lookup_host upstream_addr target)
      (recv_datagrams fuel udp_packet_size r)
with_target lookup_host s upstream_addr fuel (err e) = failed (read_target_failed e)

-- A stream of the tunnel. The fuel counts its datagrams.
unfoldable pub process :
    (lookup_host : Text → ℕ → Lookup) → Sockets → Option SocketAddr → ℕ → Reader → Processed
unfolding with_target
process lookup_host s upstream_addr fuel r =
    with_target lookup_host s upstream_addr fuel (read_optional_tunnel_target r)

-- What the task of the replies meets: the end of the flow, which drops the shutdown sender, a
-- datagram of the upstream, an error, or the timeout.
pub data Reply : Type 0 where
  shutdown recv_failed elapsed : Reply
  received : List ℕ → Reply

-- `.ok()`: a failed write is passed over.
unfoldable pub keep_writing : Writer → Result MessageError Writer → Writer
keep_writing w (ok w1) = w1
keep_writing w (err e) = w

unfoldable pub udp_to_quic : List Reply → Writer → Writer
unfolding keep_writing
udp_to_quic [] w = w
udp_to_quic (shutdown ∷ replies) w = w
udp_to_quic (recv_failed ∷ replies) w = w
udp_to_quic (elapsed ∷ replies) w = w
udp_to_quic (received p ∷ replies) w = udp_to_quic replies (keep_writing w (send_raw_to w p))

-- The streams that an accept loop takes before the connection ends.
unfoldable pub accepted : List Incoming → List Reader
accepted [] = []
accepted (stream r ∷ incoming) = r ∷ accepted incoming
accepted (timed_out ∷ incoming) = []
accepted (application_closed ∷ incoming) = []
accepted (accept_failed ∷ incoming) = []

-- What an accept loop starts: a task for each stream, over sockets or over the channel of the
-- connector with the addresses they share; its stop function, if any, is called when the loop is over.
pub data Accepting : Type 0 where
  by_sockets : List Reader → Accepting
  by_channel : Ports → List Reader → Bool → Accepting
  connector_failed : Accepting

-- A `ChannelUdpConnector`, at the default upstream and the timeout: an error, or a channel with or
-- without a stop function.
abbrev pub Connector : Type 0
Connector = Option SocketAddr → ℕ → Option Bool

-- The addresses that the streams of a connection share at the start.
abbrev pub first_ports : Ports
first_ports = record { next_local_port = 10000; reply_map = [] }

start_accepting_channel : List Incoming → Bool → Accepting
unfolding accepted
start_accepting_channel incoming has_stop = by_channel first_ports (accepted incoming) has_stop

connected : Option Bool → List Incoming → Accepting
unfolding start_accepting_channel
connected none incoming = connector_failed
connected (some has_stop) incoming = start_accepting_channel incoming has_stop

unfoldable pub start_accepting_with_connector :
    Option SocketAddr → ℕ → Option Connector → List Incoming → Accepting
unfolding connected accepted
start_accepting_with_connector default_upstream timeout_ms (some connector) incoming =
    connected (connector default_upstream timeout_ms) incoming
start_accepting_with_connector default_upstream timeout_ms none incoming =
    by_sockets (accepted incoming)

unfoldable pub start_accepting : Option SocketAddr → ℕ → List Incoming → Accepting
unfolding start_accepting_with_connector
start_accepting upstream_addr timeout_ms incoming =
    start_accepting_with_connector upstream_addr timeout_ms none incoming

unfoldable pub start_dynamic_accepting :
    Option SocketAddr → ℕ → Option Connector → List Incoming → Accepting
unfolding start_accepting
start_dynamic_accepting default_upstream timeout_ms (some connector) incoming =
    start_accepting_with_connector default_upstream timeout_ms (some connector) incoming
start_dynamic_accepting default_upstream timeout_ms none incoming =
    start_accepting default_upstream timeout_ms incoming

-- ===== src/TcpTunnel/Accept.antt =====
-- The accepting side of a TCP tunnel: `start_accepting_with_connector`, `start_accepting` and
-- `start_dynamic_accepting` of src/tcp/tcp_tunnel.rs. What the network does is a parameter: how a
-- connection attempt and the embedder's connector answer, and what comes from `accept_bi`.
use rstun.Base.{
  ℕ, Bool, false, ◌||◌, not, Option, none, some, List, [], ◌∷◌, if◌then◌else◌, Result, ok, err,
  is_some,
}
use rstun.Net.{SocketAddr, TunnelTarget, addr}
use rstun.Io.{Reader}
use rstun.Target.{TransferError, read_tunnel_target}

pub record ChannelTcpConnectCtx : Type 0 where
  pub requested_dst : Option TunnelTarget
  pub default_upstream : Option SocketAddr
  pub timeout_ms : ℕ

-- `TcpStream::connect` under its timeout of five seconds.
pub data Connect : Type 0 where
  connected refused too_slow : Connect

-- What an accepted stream is joined to.
pub data Upstream : Type 0 where
  dialed : TunnelTarget → Upstream
  made_by_connector : ChannelTcpConnectCtx → Upstream

pub data Drop : Type 0 where
  read_target_failed : TransferError → Drop
  connector_failed no_destination connect_failed connect_timeout : Drop

-- A stream that flows: its upstream, the bytes of the tunnel that are still to be copied to it, and
-- whether it is compressed.
pub data Accepted : Type 0 where
  flows : Upstream → Reader → Bool → Accepted
  dropped : Drop → Accepted

pub record Network : Type 0 where
  pub connect : TunnelTarget → Connect

-- Whether the connector gives a stream.
abbrev pub Connector : Type 0
Connector = ChannelTcpConnectCtx → Bool

unfoldable pub requested :
    Result TransferError (TunnelTarget × Reader)
    → Result TransferError (Option TunnelTarget × Reader)
requested (ok (target, r)) = ok (some target, r)
requested (err e) = err e

-- The target is on the stream only if the upstream is not fixed.
unfoldable pub requested_dst :
    Option Connector
    → Option SocketAddr
    → Reader
    → Result TransferError (Option TunnelTarget × Reader)
unfolding requested
requested_dst tcp_connector upstream_addr r =
    if is_some tcp_connector || not (is_some upstream_addr)
    then requested (read_tunnel_target r)
    else ok (none, r)

-- `upstream_addr.map(TunnelTarget::Addr).or(requested_dst)`.
unfoldable pub destination : Option SocketAddr → Option TunnelTarget → Option TunnelTarget
destination (some a) requested = some (addr a)
destination none requested = requested

answered : Connect → TunnelTarget → Reader → Bool → Accepted
answered connected target r zstd = flows (dialed target) r zstd
answered refused target r zstd = dropped connect_failed
answered too_slow target r zstd = dropped connect_timeout

dial : Network → Option TunnelTarget → Reader → Bool → Accepted
unfolding answered
dial net none r zstd = dropped no_destination
dial net (some target) r zstd = answered (net.connect target) target r zstd

unfoldable pub join_upstream :
    Network
    → Option Connector
    → Option SocketAddr
    → ℕ
    → Option TunnelTarget
    → Reader
    → Bool
    → Accepted
unfolding dial destination
join_upstream net (some connector) upstream_addr timeout_ms requested r zstd =
    let ctx : ChannelTcpConnectCtx = record {
      requested_dst = requested;
      default_upstream = upstream_addr;
      timeout_ms = timeout_ms;
    } in
    if connector ctx then flows (made_by_connector ctx) r zstd else dropped connector_failed
join_upstream net none upstream_addr timeout_ms requested r zstd =
    dial net (destination upstream_addr requested) r zstd

unfoldable pub with_requested :
    Network
    → Option Connector
    → Option SocketAddr
    → ℕ
    → Bool
    → Result TransferError (Option TunnelTarget × Reader)
    → Accepted
unfolding join_upstream
with_requested net c upstream_addr timeout_ms zstd (ok (target, r)) =
    join_upstream net c upstream_addr timeout_ms target r zstd
with_requested net c upstream_addr timeout_ms zstd (err e) = dropped (read_target_failed e)

-- The task of an accepted stream.
unfoldable pub accept_stream :
    Network → Option Connector → Option SocketAddr → ℕ → Bool → Reader → Accepted
unfolding requested_dst with_requested
accept_stream net c upstream_addr timeout_ms zstd r =
    with_requested net c upstream_addr timeout_ms zstd (requested_dst c upstream_addr r)

-- What `accept_bi` gives: a stream, or one of the errors, each of which ends the loop.
pub data Incoming : Type 0 where
  stream : Reader → Incoming
  timed_out application_closed accept_failed : Incoming

-- The loop; the tasks do not wait for one another.
unfoldable pub start_accepting_with_connector :
    Network → Option Connector → Option SocketAddr → ℕ → Bool → List Incoming → List Accepted
start_accepting_with_connector net tcp_connector upstream_addr timeout_ms zstd [] = []
start_accepting_with_connector net tcp_connector upstream_addr timeout_ms zstd
      (stream r ∷ incoming) =
    accept_stream net tcp_connector upstream_addr timeout_ms zstd r
    ∷ start_accepting_with_connector net tcp_connector upstream_addr timeout_ms zstd incoming
start_accepting_with_connector net tcp_connector upstream_addr timeout_ms zstd
      (timed_out ∷ incoming) =
    []
start_accepting_with_connector net tcp_connector upstream_addr timeout_ms zstd
      (application_closed ∷ incoming) =
    []
start_accepting_with_connector net tcp_connector upstream_addr timeout_ms zstd
      (accept_failed ∷ incoming) =
    []

unfoldable pub start_accepting :
    Network → Option SocketAddr → ℕ → Bool → List Incoming → List Accepted
unfolding start_accepting_with_connector
start_accepting net upstream_addr timeout_ms zstd incoming =
    start_accepting_with_connector net none upstream_addr timeout_ms zstd incoming

-- Without a connector neither the default upstream nor the codec is passed on.
unfoldable pub start_dynamic_accepting :
    Network → Option SocketAddr → ℕ → Option Connector → Bool → List Incoming → List Accepted
unfolding start_accepting
start_dynamic_accepting net default_upstream timeout_ms (some connector) zstd incoming =
    start_accepting_with_connector net (some connector) default_upstream timeout_ms zstd incoming
start_dynamic_accepting net default_upstream timeout_ms none zstd incoming =
    start_accepting net none timeout_ms false incoming

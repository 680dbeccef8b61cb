-- ===== src/Loops.antt =====
-- Which tunnel loop each side of a connection runs, with which codec: `handle_network_based_tunnel`
-- and `handle_channel_based_tunnel` of src/client.rs, and `serve` of src/server.rs.
use rstun.Base.{Bool, true, false, Option, none, some}
use rstun.Net.{
  SocketAddr, TunnelMode, mode_in, mode_out, UpstreamType, tcp, udp, Tunnel, network_based,
  channel_based,
}
use rstun.Compress.Config.{CodecConfig, default}
use rstun.Server.Login.{
  TunnelType, tcp_out, udp_out, tcp_in, udp_in, dynamic_upstream_tcp_out, dynamic_upstream_udp_out,
}

-- `start_serving` opens the streams, and the accepting loop takes them: with the upstream that it is
-- given, and with the embedder's connector or without.
pub data Loop : Type 0 where
  serves_tcp : CodecConfig → Loop
  serves_udp : Loop
  accepts_tcp : Option SocketAddr → Bool → CodecConfig → Loop
  accepts_udp : Option SocketAddr → Bool → Loop

unfoldable pub outbound : UpstreamType → CodecConfig → Loop
outbound tcp codec = serves_tcp codec
outbound udp codec = serves_udp

unfoldable pub inbound : UpstreamType → SocketAddr → CodecConfig → Loop
inbound tcp local_server_addr codec = accepts_tcp (some local_server_addr) false codec
inbound udp local_server_addr codec = accepts_udp (some local_server_addr) false

unfoldable pub network_loop :
    TunnelMode → UpstreamType → Option SocketAddr → CodecConfig → Option Loop
unfolding outbound inbound
network_loop mode u none codec = none
network_loop mode_out u (some a) codec = some (outbound u codec)
network_loop mode_in u (some a) codec = some (inbound u a codec)

-- `none` is the panic of `local_server_addr.unwrap()`.
unfoldable pub client_loop : CodecConfig → Tunnel → Option Loop
unfolding network_loop outbound
client_loop codec (network_based c) =
    network_loop c.mode c.upstream.upstream_type c.local_server_addr codec
client_loop codec (channel_based u) = some (outbound u codec)

-- What the server's configuration says of dynamic tunnels.
pub record Dynamic : Type 0 where
  pub default_tcp_upstream : Option SocketAddr
  pub default_udp_upstream : Option SocketAddr
  pub tcp_connector : Bool
  pub udp_connector : Bool

-- `TcpTunnel::start_dynamic_accepting`: without a connector the default upstream is not passed on.
unfoldable pub dynamic_tcp : Bool → Option SocketAddr → Loop
dynamic_tcp true a = accepts_tcp a true default
dynamic_tcp false a = accepts_tcp none false default

unfoldable pub server_loop : Dynamic → TunnelType → Loop
unfolding dynamic_tcp
server_loop d (tcp_out conn a) = accepts_tcp (some a) false default
server_loop d (udp_out conn a) = accepts_udp (some a) false
server_loop d (tcp_in conn s) = serves_tcp default
server_loop d (udp_in conn s) = serves_udp
server_loop d (dynamic_upstream_tcp_out conn) = dynamic_tcp d.tcp_connector d.default_tcp_upstream
server_loop d (dynamic_upstream_udp_out conn) = accepts_udp d.default_udp_upstream d.udp_connector

-- ===== src/Net.antt =====
-- Socket addresses as the program uses them, and the tunnel data of src/lib.rs: `TunnelTarget`,
-- `TunnelMode`, `UpstreamType`, `Upstream`, `TunnelConfig`, `Tunnel`; `LoginInfo` and
-- `ServerCapabilities` of src/tunnel_message.rs.
pub mod Equality
use rstun.Base.{
  ℕ, suc, ◌≡◌, ◌<◌, ◌+◌, Bool, true, false, ◌&&◌, Option, none, some, List, [], ◌∷◌, ◌==◌, length,
  AreBytes, leb,
}
use rstun.Base

-- `std::net::IpAddr`: the octets, the most significant first.
pub data IpAddr : Type 0 where
  v4 : List ℕ → IpAddr
  v6 : List ℕ → IpAddr

-- `std::net::SocketAddr`, without the flow label and the scope of an IPv6 address, which the
-- program never sets.
pub record SocketAddr : Type 0 where
  pub ip : IpAddr
  pub port : ℕ

-- What the type system of the source says of an address.
abbrev pub IsIp : IpAddr → Type 0
IsIp (v4 os) = (length os ≡ 4) × AreBytes os
IsIp (v6 os) = (length os ≡ 16) × AreBytes os

abbrev pub IsAddr : SocketAddr → Type 0
IsAddr a = IsIp a.ip × (a.port < 65536)

unfoldable pub is_ipv6 : SocketAddr → Bool
is_ipv6 a = elim a.ip [ v4 os ↦ false | v6 os ↦ true ]

unfoldable pub is_ipv4 : SocketAddr → Bool
is_ipv4 a = elim a.ip [ v4 os ↦ true | v6 os ↦ false ]

all_zero : List ℕ → Bool
all_zero [] = true
all_zero (o ∷ os) = (o == 0) && all_zero os

-- `::1`: fifteen zero octets and a one.
is_one : List ℕ → Bool
is_one [] = false
is_one (o ∷ []) = o == 1
is_one (o ∷ os) = (o == 0) && is_one os

starts_with_127 : List ℕ → Bool
starts_with_127 [] = false
starts_with_127 (o ∷ os) = o == 127

-- `IpAddr::is_loopback`: 127.0.0.0/8 and ::1.
unfoldable pub is_loopback : IpAddr → Bool
unfolding starts_with_127 is_one
is_loopback (v4 os) = starts_with_127 os
is_loopback (v6 os) = is_one os

-- `IpAddr::is_unspecified`: 0.0.0.0 and ::.
unfoldable pub is_unspecified : IpAddr → Bool
unfolding all_zero
is_unspecified (v4 os) = all_zero os
is_unspecified (v6 os) = all_zero os

abbrev zeros : ℕ → List ℕ
zeros ℕ.zero = []
zeros (suc n) = 0 ∷ zeros n

-- `socket_addr_with_unspecified_ip_port`.
unfoldable pub socket_addr_with_unspecified_ip_port : Bool → SocketAddr
socket_addr_with_unspecified_ip_port true = record { ip = v6 (zeros 16); port = 0 }
socket_addr_with_unspecified_ip_port false = record { ip = v4 (zeros 4); port = 0 }

-- A Rust `String` is the list of its UTF-8 bytes.
abbrev pub Text : Type 0
Text = List ℕ

pub data TunnelTarget : Type 0 where
  addr : SocketAddr → TunnelTarget
  domain : Text → ℕ → TunnelTarget

-- `TunnelTarget::port`.
unfoldable pub target_port : TunnelTarget → ℕ
target_port (addr a) = a.port
target_port (domain host port) = port

-- `TunnelTarget::as_socketaddr`.
unfoldable pub as_socketaddr : TunnelTarget → Option SocketAddr
as_socketaddr (addr a) = some a
as_socketaddr (domain host port) = none

pub data TunnelMode : Type 0 where
  mode_in mode_out : TunnelMode

pub data UpstreamType : Type 0 where
  tcp udp : UpstreamType

pub record Upstream : Type 0 where
  pub upstream_addr : Option SocketAddr
  pub upstream_type : UpstreamType

pub record TunnelConfig : Type 0 where
  pub mode : TunnelMode
  pub local_server_addr : Option SocketAddr
  pub upstream : Upstream

pub data Tunnel : Type 0 where
  network_based : TunnelConfig → Tunnel
  channel_based : UpstreamType → Tunnel

pub record LoginInfo : Type 0 where
  pub password : Text
  pub tunnel : Tunnel
  pub tcp_timeout_ms : ℕ
  pub udp_timeout_ms : ℕ

pub record ServerCapabilities : Type 0 where
  pub ipv6_supported : Bool

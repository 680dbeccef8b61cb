-- ===== src/Server/Examples.antt =====
-- The server at concrete logins and sessions.
use rstun.Base.{ℕ, ◌≡◌, refl, Bool, true, false, Option, none, some, [], ◌∷◌, Result, ok, All, ◌==◌}
use rstun.Net.{
  Text, SocketAddr, v4, is_loopback, is_unspecified, mode_in, UpstreamType, tcp, network_based,
  LoginInfo, ServerCapabilities,
}
use rstun.Net.Equality.{bytes_eq}
use rstun.Message.{TunnelMessage, req_login, MessageError}
use rstun.TcpServer
use rstun.Server.Login.{
  ServerConfig, TimeoutConfig, TunnelType, tcp_in, check_password, effective_timeout,
  obtain_upstream_addr, upstream_addr_of, derive_tunnel_type, authenticate_connection,
}
use rstun.Server.Login.Inbound.{IsLocal, authenticate_connection-binds}
use rstun.Compress.Config.{CodecConfig, default}
use rstun.Loops.{Dynamic, client_loop, server_loop}
use rstun.Server.Login.Ends.{ClientMeets, authenticate_connection-Meets}
use rstun.Server.Login.Accepted.{Accepted, authenticate_connection-Accepted}
use rstun.Server.Sessions.{State}

abbrev loopback : SocketAddr
loopback = record { ip = v4 (127 ∷ 0 ∷ 0 ∷ 1 ∷ []); port = 8000 }

abbrev config : ServerConfig
config = record {
  password = 112 ∷ [];
  default_tcp_upstream = none;
  default_udp_upstream = none;
  tcp_timeout_ms = 30000;
  udp_timeout_ms = 5000;
}

abbrev login_with : Text → LoginInfo
login_with password = record {
  password = password;
  tunnel = network_based (record {
    mode = mode_in;
    local_server_addr = some loopback;
    upstream = record { upstream_addr = some loopback; upstream_type = tcp };
  });
  tcp_timeout_ms = 60000;
  udp_timeout_ms = 0;
}

abbrev caps : ServerCapabilities
caps = record { ipv6_supported = true }

abbrev bind_all : UpstreamType → SocketAddr → Option SocketAddr
bind_all u a = some a

abbrev no_text : UpstreamType → SocketAddr → Text
no_text u a = []

abbrev received : Result MessageError TunnelMessage
received = ok (req_login (login_with (112 ∷ [])))

abbrev accepted : TunnelType × TimeoutConfig
accepted = (
  tcp_in 3 (TcpServer.start loopback 3),
  record { tcp_timeout_ms = 60000; udp_timeout_ms = 5000 },
)

login_accepted :
    (authenticate_connection bind_all no_text true 3 received caps config).result ≡ ok accepted
unfolding authenticate_connection derive_tunnel_type obtain_upstream_addr upstream_addr_of
    check_password effective_timeout bytes_eq is_loopback is_unspecified
login_accepted = refl

authenticate_connection-binds_example :
    All IsLocal (authenticate_connection bind_all no_text true 3 received caps config).binds
authenticate_connection-binds_example =
    authenticate_connection-binds bind_all no_text true 3 received caps config

authenticate_connection-Accepted_example :
    Accepted received caps config accepted.1
      (authenticate_connection bind_all no_text true 3 received caps config).replies
authenticate_connection-Accepted_example =
    authenticate_connection-Accepted bind_all no_text true 3 received caps config accepted
      login_accepted

abbrev zstd_codec : CodecConfig
zstd_codec = record default { enabled = true }

abbrev dynamic : Dynamic
dynamic = record {
  default_tcp_upstream = none;
  default_udp_upstream = none;
  tcp_connector = false;
  udp_connector = false;
}

authenticate_connection-Meets_example :
    ClientMeets zstd_codec
      (client_loop zstd_codec (login_with (112 ∷ [])).tunnel)
      (server_loop dynamic (accepted.0))
authenticate_connection-Meets_example =
    authenticate_connection-Meets zstd_codec dynamic bind_all no_text true 3 (login_with (112 ∷ []))
      caps config accepted login_accepted

-- Connection 1 is closed.
abbrev closed : ℕ → Bool
closed n = n == 1

abbrev sessions : State
sessions = record {
  connections = 1 ∷ 2 ∷ [];
  tcp_sessions = record { conn = 1; sender = 10 } ∷ record { conn = 2; sender = 20 } ∷ [];
  udp_sessions = record { conn = 1; sender = 30 } ∷ [];
}

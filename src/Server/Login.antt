-- ===== src/Server/Login.antt =====
-- `authenticate_connection` of src/server.rs and what it calls. A connection is a number. What the
-- sockets do is a parameter: the address that a bind gives, if it works, and whether the peer still
-- takes what is written.
pub mod Inbound
pub mod Accepted
pub mod Ends
use rstun.Base.{
  ℕ, ◌≡◌, Bool, true, false, not, ◌&&◌, Option, none, some, List, [], ◌∷◌, ◌++◌, if◌then◌else◌,
  Result, ok, err, ◌>>=◌, ◌>>◌, ensure, ltb, max, is_some,
}
use rstun.Net.{
  Text, SocketAddr, is_loopback, is_unspecified, TunnelMode, mode_in, mode_out, UpstreamType, tcp,
  udp, TunnelConfig, Tunnel, network_based, channel_based, LoginInfo, ServerCapabilities,
}
use rstun.Net.Equality.{bytes_eq}
use rstun.Message.{
  TunnelMessage, req_login, req_heartbeat, resp_heartbeat, resp_failure, resp_success, MessageError,
}
use rstun.TcpServer
use rstun.UdpServer

-- What the login uses of the server's configuration.
pub record ServerConfig : Type 0 where
  pub password : Text
  pub default_tcp_upstream : Option SocketAddr
  pub default_udp_upstream : Option SocketAddr
  pub tcp_timeout_ms : ℕ
  pub udp_timeout_ms : ℕ

pub record TimeoutConfig : Type 0 where
  pub tcp_timeout_ms : ℕ
  pub udp_timeout_ms : ℕ

-- A connection with what its tunnel needs.
pub data TunnelType : Type 0 where
  tcp_out udp_out : ℕ → SocketAddr → TunnelType
  tcp_in : ℕ → TcpServer.State → TunnelType
  udp_in : ℕ → UdpServer.State → TunnelType
  dynamic_upstream_tcp_out dynamic_upstream_udp_out : ℕ → TunnelType

pub data LoginError : Type 0 where
  passwords_differ port_required no_default_upstream inbound_address_not_local : LoginError
  login_rejected write_failed unexpected_message : LoginError
  not_received : MessageError → LoginError

-- What a step of the login gives: its result, the messages it wrote, and the listeners it tried to
-- bind.
pub record Login (A : Type 0) : Type 0 where
  pub result : Result LoginError A
  pub replies : List TunnelMessage
  pub binds : List (UpstreamType × SocketAddr)

abbrev pub quiet : {A : Type 0} → Result LoginError A → Login A
quiet r = record { result = r; replies = []; binds = [] }

unfoldable pub check_password : Text → Text → Result LoginError (Unit {0})
check_password password1 password2 = ensure (bytes_eq password1 password2) passwords_differ

-- The longer of the two timeouts.
unfoldable pub effective_timeout : ℕ → ℕ → ℕ
effective_timeout login_timeout_ms config_timeout_ms =
    if ltb 0 login_timeout_ms then max login_timeout_ms config_timeout_ms else config_timeout_ms

abbrev is_in : TunnelMode → Bool
is_in mode_in = true
is_in mode_out = false

default_upstream_addr : TunnelMode → Option SocketAddr → Result LoginError SocketAddr
default_upstream_addr mode_in default_upstream = err port_required
default_upstream_addr mode_out none = err no_default_upstream
default_upstream_addr mode_out (some a) = ok a

unfoldable pub upstream_addr_of :
    TunnelMode → Option SocketAddr → Option SocketAddr → Result LoginError SocketAddr
unfolding default_upstream_addr
upstream_addr_of mode none default_upstream = default_upstream_addr mode default_upstream
upstream_addr_of mode (some a) default_upstream =
    if is_in mode && (not (is_unspecified a.ip) && not (is_loopback a.ip))
    then err inbound_address_not_local
    else ok a

unfoldable pub obtain_upstream_addr :
    TunnelConfig → Option SocketAddr → Result LoginError SocketAddr
obtain_upstream_addr c default_upstream =
    upstream_addr_of c.mode c.upstream.upstream_addr default_upstream

abbrev pub default_of : UpstreamType → ServerConfig → Option SocketAddr
default_of tcp config = config.default_tcp_upstream
default_of udp config = config.default_udp_upstream

module _ (bind : UpstreamType → SocketAddr → Option SocketAddr)
    (failed_to_bind : UpstreamType → SocketAddr → Text) (writes : Bool) where
  -- The failure is told to the client, then the login is rejected.
  reject : UpstreamType → SocketAddr → Login TunnelType
  reject u a =
      if writes
      then record {
        result = err login_rejected;
        replies = resp_failure (failed_to_bind u a) ∷ [];
        binds = (u, a) ∷ [];
      }
      else record { result = err write_failed; replies = []; binds = (u, a) ∷ [] }

  listener : UpstreamType → ℕ → SocketAddr → TunnelType
  listener tcp conn a = tcp_in conn (TcpServer.start a conn)
  listener udp conn a = udp_in conn (UdpServer.start a conn)

  listen_with : Option SocketAddr → UpstreamType → ℕ → SocketAddr → Login TunnelType
  unfolding reject listener
  listen_with (some bound) u conn a = record {
    result = ok (listener u conn bound);
    replies = [];
    binds = (u, a) ∷ [];
  }
  listen_with none u conn a = reject u a

  outbound : UpstreamType → ℕ → SocketAddr → TunnelType
  outbound tcp conn a = tcp_out conn a
  outbound udp conn a = udp_out conn a

  open_tunnel : TunnelMode → UpstreamType → ℕ → Result LoginError SocketAddr → Login TunnelType
  unfolding listen_with outbound
  open_tunnel mode u conn (err e) = quiet (err e)
  open_tunnel mode_out u conn (ok a) = quiet (ok (outbound u conn a))
  open_tunnel mode_in u conn (ok a) = listen_with (bind u a) u conn a

  unfoldable pub derive_tunnel_type : ℕ → TunnelConfig → ServerConfig → Login TunnelType
  unfolding open_tunnel
  derive_tunnel_type conn c config =
      let u = c.upstream.upstream_type in
      open_tunnel c.mode u conn (obtain_upstream_addr c (default_of u config))

  tunnel_type_of : ℕ → Tunnel → ServerConfig → Login TunnelType
  tunnel_type_of conn (network_based c) config = derive_tunnel_type conn c config
  tunnel_type_of conn (channel_based tcp) config = quiet (ok (dynamic_upstream_tcp_out conn))
  tunnel_type_of conn (channel_based udp) config = quiet (ok (dynamic_upstream_udp_out conn))

  timeouts : LoginInfo → ServerConfig → TimeoutConfig
  timeouts info config = record {
    tcp_timeout_ms = effective_timeout info.tcp_timeout_ms config.tcp_timeout_ms;
    udp_timeout_ms = effective_timeout info.udp_timeout_ms config.udp_timeout_ms;
  }

  -- The answer to the client, once the tunnel is there.
  succeed :
      ServerCapabilities
      → TimeoutConfig
      → Result LoginError TunnelType
      → Login TunnelType
      → Login (TunnelType × TimeoutConfig)
  succeed caps times (err e) l = record { result = err e; replies = l.replies; binds = l.binds }
  succeed caps times (ok t) l =
      if writes
      then record {
        result = ok (t, times);
        replies = l.replies ++ resp_success caps ∷ [];
        binds = l.binds;
      }
      else record { result = err write_failed; replies = l.replies; binds = l.binds }

  login :
      ℕ
      → LoginInfo
      → ServerCapabilities
      → ServerConfig
      → Result LoginError (Unit {0})
      → Login (TunnelType × TimeoutConfig)
  unfolding tunnel_type_of timeouts succeed
  login conn info caps config (err e) = quiet (err e)
  login conn info caps config (ok u) =
      let l = tunnel_type_of conn info.tunnel config in
      succeed caps (timeouts info config) l.result l

  unfoldable pub authenticate_connection :
      ℕ
      → Result MessageError TunnelMessage
      → ServerCapabilities
      → ServerConfig
      → Login (TunnelType × TimeoutConfig)
  unfolding login
  authenticate_connection conn (err e) caps config = quiet (err (not_received e))
  authenticate_connection conn (ok (req_login info)) caps config =
      login conn info caps config (check_password config.password info.password)
  authenticate_connection conn (ok (req_heartbeat seq)) caps config = quiet (err unexpected_message)
  authenticate_connection conn (ok (resp_heartbeat seq)) caps config =
      quiet (err unexpected_message)
  authenticate_connection conn (ok (resp_failure text)) caps config = quiet (err unexpected_message)
  authenticate_connection conn (ok (resp_success c)) caps config = quiet (err unexpected_message)

-- ===== src/Server/Login/Inbound.antt =====
-- Where an inbound tunnel may listen: the logins of src/server.rs that bind a socket.
use rstun.Base.{
  ℕ, ◌≡◌, refl, sym, subst, Bool, true, ◌||◌, Option, none, some, [], ◌∷◌, Result, ok, err, All,
  arith,
}
use rstun.Net.{
  Text, SocketAddr, is_loopback, is_unspecified, TunnelMode, mode_in, mode_out, UpstreamType, tcp,
  udp, Tunnel, network_based, channel_based, LoginInfo, ServerCapabilities,
}
use rstun.Message.{
  TunnelMessage, req_login, req_heartbeat, resp_heartbeat, resp_failure, resp_success, MessageError,
}
use rstun.Server.Login.{
  ServerConfig, TimeoutConfig, TunnelType, LoginError, Login, check_password, upstream_addr_of,
  obtain_upstream_addr, default_of, derive_tunnel_type, authenticate_connection, succeed, login,
  open_tunnel, tunnel_type_of, listen_with,
}

abbrev pub IsLocal : UpstreamType × SocketAddr → Type 0
IsLocal (u, a) = (is_loopback a.ip || is_unspecified a.ip) ≡ true

-- An address that passes for an inbound tunnel.
upstream_addr_of-local :
    (given default_upstream : Option SocketAddr) (a : SocketAddr)
    → upstream_addr_of mode_in given default_upstream ≡ ok a
    → (is_loopback a.ip || is_unspecified a.ip) ≡ true
unfolding upstream_addr_of
upstream_addr_of-local none d a h = cc
upstream_addr_of-local (some b) d a h = ground (arith, h)

module _ (bind : UpstreamType → SocketAddr → Option SocketAddr)
    (failed_to_bind : UpstreamType → SocketAddr → Text) (writes : Bool) where
  listen_with-binds :
      (o : Option SocketAddr) (u : UpstreamType) (conn : ℕ) (a : SocketAddr)
      → (listen_with bind failed_to_bind writes o u conn a).binds ≡ (u, a) ∷ []
  unfolding listen_with
  listen_with-binds (some b) u conn a = refl
  listen_with-binds none u conn a = ground arith

  open_tunnel-binds :
      (mode : TunnelMode) (u : UpstreamType) (conn : ℕ) (given d : Option SocketAddr)
      (r : Result LoginError SocketAddr)
      → upstream_addr_of mode given d ≡ r
      → All IsLocal (open_tunnel bind failed_to_bind writes mode u conn r).binds
  unfolding open_tunnel
  open_tunnel-binds mode u conn given d (err e) h = tt
  open_tunnel-binds mode_out u conn given d (ok a) h = tt
  open_tunnel-binds mode_in u conn given d (ok a) h =
      subst (All IsLocal) (sym (listen_with-binds (bind u a) u conn a))
        (upstream_addr_of-local given d a h, tt)

  tunnel_type_of-binds :
      (conn : ℕ) (t : Tunnel) (config : ServerConfig)
      → All IsLocal (tunnel_type_of bind failed_to_bind writes conn t config).binds
  unfolding tunnel_type_of derive_tunnel_type obtain_upstream_addr
  tunnel_type_of-binds conn (network_based c) config =
      open_tunnel-binds c.mode c.upstream.upstream_type conn c.upstream.upstream_addr
        (default_of c.upstream.upstream_type config) _ refl
  tunnel_type_of-binds conn (channel_based tcp) config = tt
  tunnel_type_of-binds conn (channel_based udp) config = tt

  succeed-binds :
      (caps : ServerCapabilities) (times : TimeoutConfig) (r : Result LoginError TunnelType)
      (l : Login TunnelType)
      → (succeed bind failed_to_bind writes caps times r l).binds ≡ l.binds
  unfolding succeed
  succeed-binds caps times (err e) l = refl
  succeed-binds caps times (ok t) l = ground arith

  login-binds :
      (conn : ℕ) (info : LoginInfo) (caps : ServerCapabilities) (config : ServerConfig)
      (r : Result LoginError (Unit {0}))
      → All IsLocal (login bind failed_to_bind writes conn info caps config r).binds
  unfolding login
  login-binds conn info caps config (err e) = tt
  login-binds conn info caps config (ok u) =
      subst (All IsLocal)
        (sym (
          succeed-binds caps _ _
            (tunnel_type_of bind failed_to_bind writes conn info.tunnel config)))
        (tunnel_type_of-binds conn info.tunnel config)

-- Whatever the first message of a connection is, every address at which its login tries to bind a
-- listener is a loopback or an unspecified address.
pub authenticate_connection-binds :
    (bind : UpstreamType → SocketAddr → Option SocketAddr)
    (failed_to_bind : UpstreamType → SocketAddr → Text) (writes : Bool) (conn : ℕ)
    (received : Result MessageError TunnelMessage) (caps : ServerCapabilities)
    (config : ServerConfig)
    → All IsLocal
        (authenticate_connection bind failed_to_bind writes conn received caps config).binds
unfolding authenticate_connection
authenticate_connection-binds bind failed_to_bind writes conn (err e) caps config = tt
authenticate_connection-binds bind failed_to_bind writes conn (ok (req_login info)) caps config =
    login-binds bind failed_to_bind writes conn info caps config
      (check_password config.password info.password)
authenticate_connection-binds bind failed_to_bind writes conn (ok (req_heartbeat seq)) caps config =
    tt
authenticate_connection-binds bind failed_to_bind writes conn (ok (resp_heartbeat seq)) caps
      config =
    tt
authenticate_connection-binds bind failed_to_bind writes conn (ok (resp_failure m)) caps config = tt
authenticate_connection-binds bind failed_to_bind writes conn (ok (resp_success c)) caps config = tt

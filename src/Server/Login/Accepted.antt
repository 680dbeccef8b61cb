-- ===== src/Server/Login/Accepted.antt =====
-- What a login that src/server.rs accepts has shown, and what one that it refuses has caused.
use rstun.Base.{
  ℕ, ◌≡◌, ◌≢◌, refl, ok-injective, ◌∙◌, sym, ap, Bool, true, false, Option, none, some, List, [],
  ◌∷◌, ◌++◌, Result, ok, err, arith, max,
}
use rstun.Net.{
  Text, SocketAddr, TunnelMode, mode_in, mode_out, UpstreamType, tcp, udp, Tunnel, network_based,
  channel_based, LoginInfo, ServerCapabilities,
}
use rstun.Net.Equality.{bytes_eq_iff}
use rstun.Message.{
  TunnelMessage, req_login, req_heartbeat, resp_heartbeat, resp_failure, resp_success, MessageError,
}
use rstun.Server.Login.{
  ServerConfig, TimeoutConfig, TunnelType, LoginError, passwords_differ, Login, check_password,
  effective_timeout, derive_tunnel_type, authenticate_connection, succeed, login, open_tunnel,
  tunnel_type_of, listen_with, timeouts,
}

-- A login with the server's password, answered by success alone, on timeouts that are the longer of
-- the client's and the server's.
pub record Accepted (received : Result MessageError TunnelMessage) (caps : ServerCapabilities)
    (config : ServerConfig) (times : TimeoutConfig) (replies : List TunnelMessage) : Type 0 where
  pub info : LoginInfo
  pub was_login : received ≡ ok (req_login info)
  pub password : info.password ≡ config.password
  pub answered : replies ≡ resp_success caps ∷ []
  pub tcp_timeout : times.tcp_timeout_ms ≡ max info.tcp_timeout_ms config.tcp_timeout_ms
  pub udp_timeout : times.udp_timeout_ms ≡ max info.udp_timeout_ms config.udp_timeout_ms

effective_timeout-max : (a b : ℕ) → effective_timeout a b ≡ max a b
unfolding effective_timeout
effective_timeout-max a b = ground arith

check_password-equal : (p q : Text) (u : Unit {0}) → check_password p q ≡ ok u → q ≡ p
unfolding check_password
check_password-equal p q u h = ground (arith, bytes_eq_iff p q, h)

check_password-differ : (p q : Text) → q ≢ p → check_password p q ≡ err passwords_differ
unfolding check_password
check_password-differ p q ne = ground (arith, bytes_eq_iff p q, ne)

module _ (bind : UpstreamType → SocketAddr → Option SocketAddr)
    (failed_to_bind : UpstreamType → SocketAddr → Text) (writes : Bool) where
  listen_with-quiet :
      (o : Option SocketAddr) (u : UpstreamType) (conn : ℕ) (a : SocketAddr) (t : TunnelType)
      → (listen_with bind failed_to_bind writes o u conn a).result ≡ ok t
      → (listen_with bind failed_to_bind writes o u conn a).replies ≡ []
  unfolding listen_with
  listen_with-quiet (some b) u conn a t h = refl
  listen_with-quiet none u conn a t h = ground (arith, h)

  open_tunnel-quiet :
      (mode : TunnelMode) (u : UpstreamType) (conn : ℕ) (r : Result LoginError SocketAddr)
      (t : TunnelType)
      → (open_tunnel bind failed_to_bind writes mode u conn r).result ≡ ok t
      → (open_tunnel bind failed_to_bind writes mode u conn r).replies ≡ []
  unfolding open_tunnel
  open_tunnel-quiet mode u conn (err e) t h = refl
  open_tunnel-quiet mode_out u conn (ok a) t h = refl
  open_tunnel-quiet mode_in u conn (ok a) t h = listen_with-quiet (bind u a) u conn a t h

  tunnel_type_of-quiet :
      (conn : ℕ) (t : Tunnel) (config : ServerConfig) (tun : TunnelType)
      → (tunnel_type_of bind failed_to_bind writes conn t config).result ≡ ok tun
      → (tunnel_type_of bind failed_to_bind writes conn t config).replies ≡ []
  unfolding tunnel_type_of derive_tunnel_type
  tunnel_type_of-quiet conn (network_based c) config tun h = open_tunnel-quiet c.mode _ conn _ tun h
  tunnel_type_of-quiet conn (channel_based tcp) config tun h = refl
  tunnel_type_of-quiet conn (channel_based udp) config tun h = refl

  succeed-answers :
      (caps : ServerCapabilities) (times : TimeoutConfig) (r : Result LoginError TunnelType)
      (l : Login TunnelType) (got : TunnelType × TimeoutConfig)
      → ((tun : TunnelType) → r ≡ ok tun → l.replies ≡ [])
      → (succeed bind failed_to_bind writes caps times r l).result ≡ ok got
      → (got.1 ≡ times)
        × ((succeed bind failed_to_bind writes caps times r l).replies ≡ resp_success caps ∷ [])
  unfolding succeed
  succeed-answers caps times (err e) l got q h = cc
  succeed-answers caps times (ok t) l got q h = by_writes writes h
    where
      by_writes :
          (w : Bool)
          → (succeed bind failed_to_bind w caps times (ok t) l).result ≡ ok got
          → (got.1 ≡ times)
            × ((succeed bind failed_to_bind w caps times (ok t) l).replies ≡ resp_success caps ∷ [])
      by_writes true h =
          (ap (λ p. p.1) (sym (ok-injective h)), ap (λ l. l ++ resp_success caps ∷ []) (q t refl))
      by_writes false h = cc

  login-Accepted :
      (conn : ℕ) (info : LoginInfo) (caps : ServerCapabilities) (config : ServerConfig)
      (r : Result LoginError (Unit {0})) (got : TunnelType × TimeoutConfig)
      → check_password config.password info.password ≡ r
      → (login bind failed_to_bind writes conn info caps config r).result ≡ ok got
      → Accepted
          (ok (req_login info))
          caps
          config
          got.1
          (login bind failed_to_bind writes conn info caps config r).replies
  unfolding login timeouts
  login-Accepted conn info caps config (err e) got c h = cc
  login-Accepted conn info caps config (ok u) got c h =
      let l = tunnel_type_of bind failed_to_bind writes conn info.tunnel config in
      let s =
        succeed-answers caps (timeouts bind failed_to_bind writes info config) l.result l got
          (λ tun q. tunnel_type_of-quiet conn info.tunnel config tun q) h in
      record {
        info = info;
        was_login = refl;
        password = check_password-equal config.password info.password u c;
        answered = s.1;
        tcp_timeout =
            ap (λ t. t.tcp_timeout_ms) s.0
            ∙ effective_timeout-max info.tcp_timeout_ms config.tcp_timeout_ms;
        udp_timeout =
            ap (λ t. t.udp_timeout_ms) s.0
            ∙ effective_timeout-max info.udp_timeout_ms config.udp_timeout_ms;
      }

-- A connection is authenticated only by a login message with the server's password; then the server
-- has answered with its capabilities and nothing else, and each timeout of the tunnel is the longer
-- of the client's and the server's.
pub authenticate_connection-Accepted :
    (bind : UpstreamType → SocketAddr → Option SocketAddr)
    (failed_to_bind : UpstreamType → SocketAddr → Text) (writes : Bool) (conn : ℕ)
    (received : Result MessageError TunnelMessage) (caps : ServerCapabilities)
    (config : ServerConfig) (got : TunnelType × TimeoutConfig)
    → (authenticate_connection bind failed_to_bind writes conn received caps config).result ≡ ok got
    → Accepted received caps config got.1
        (authenticate_connection bind failed_to_bind writes conn received caps config).replies
unfolding authenticate_connection
authenticate_connection-Accepted bind failed_to_bind writes conn (err e) caps config got h = cc
authenticate_connection-Accepted bind failed_to_bind writes conn (ok (req_login info)) caps config
      got h =
    login-Accepted bind failed_to_bind writes conn info caps config
      (check_password config.password info.password) got refl h
authenticate_connection-Accepted bind failed_to_bind writes conn (ok (req_heartbeat seq)) caps
      config got h =
    cc
authenticate_connection-Accepted bind failed_to_bind writes conn (ok (resp_heartbeat seq)) caps
      config got h =
    cc
authenticate_connection-Accepted bind failed_to_bind writes conn (ok (resp_failure m)) caps config
      got h =
    cc
authenticate_connection-Accepted bind failed_to_bind writes conn (ok (resp_success c)) caps config
      got h =
    cc

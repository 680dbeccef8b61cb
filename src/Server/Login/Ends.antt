-- ===== src/Server/Login/Ends.antt =====
-- The two ends of an accepted connection, src/client.rs and src/server.rs: their loops belong
-- together, but for the codec.
use rstun.Base.{
  ℕ, ◌≡◌, refl, ap, subst, Bool, true, false, Option, none, some, Result, ok, err, ok-injective,
}
use rstun.Net.{
  Text, SocketAddr, TunnelMode, mode_in, mode_out, UpstreamType, tcp, udp, Tunnel, network_based,
  channel_based, LoginInfo, ServerCapabilities,
}
use rstun.Message.{req_login}
use rstun.Compress.Config.{CodecConfig, default}
use rstun.Loops
use rstun.Loops.{
  Loop, serves_tcp, serves_udp, accepts_tcp, accepts_udp, client_loop, network_loop, inbound,
  Dynamic, dynamic_tcp, server_loop,
}
use rstun.Server.Login.{
  ServerConfig, TimeoutConfig, TunnelType, LoginError, Login, check_password, derive_tunnel_type,
  authenticate_connection, succeed, login, open_tunnel, tunnel_type_of, listen_with, reject,
  timeouts,
}

-- One side opens the streams that the other takes, for the same kind of upstream; the client
-- compresses by its own codec and the server by the default one.
abbrev pub Meets : CodecConfig → Loop → Loop → Type 0
Meets codec (serves_tcp c) (accepts_tcp a connector d) = (c ≡ codec) × (d ≡ default)
Meets codec serves_udp (accepts_udp a connector) = Unit
Meets codec (accepts_tcp a connector c) (serves_tcp d) = (c ≡ codec) × (d ≡ default)
Meets codec (accepts_udp a connector) serves_udp = Unit
Meets codec (serves_tcp c) (serves_tcp d) = ⊥
Meets codec (serves_tcp c) serves_udp = ⊥
Meets codec (serves_tcp c) (accepts_udp a connector) = ⊥
Meets codec serves_udp (serves_tcp d) = ⊥
Meets codec serves_udp serves_udp = ⊥
Meets codec serves_udp (accepts_tcp a connector d) = ⊥
Meets codec (accepts_tcp a connector c) (accepts_tcp b connector' d) = ⊥
Meets codec (accepts_tcp a connector c) serves_udp = ⊥
Meets codec (accepts_tcp a connector c) (accepts_udp b connector') = ⊥
Meets codec (accepts_udp a connector) (serves_tcp d) = ⊥
Meets codec (accepts_udp a connector) (accepts_tcp b connector' d) = ⊥
Meets codec (accepts_udp a connector) (accepts_udp b connector') = ⊥

-- The client's loop, if it has one, meets the server's.
abbrev pub ClientMeets : CodecConfig → Option Loop → Loop → Type 0
ClientMeets codec none s = Unit
ClientMeets codec (some l) s = Meets codec l s

module _ (codec : CodecConfig) (d : Dynamic) (bind : UpstreamType → SocketAddr → Option SocketAddr)
    (failed_to_bind : UpstreamType → SocketAddr → Text) (writes : Bool) where
  listened :
      (o : Option SocketAddr) (u : UpstreamType) (conn : ℕ) (a b : SocketAddr) (t : TunnelType)
      → (listen_with bind failed_to_bind writes o u conn a).result ≡ ok t
      → Meets codec (inbound u b codec) (server_loop d t)
  unfolding listen_with inbound server_loop
  listened (some c) tcp conn a b t h =
      subst (λ t. Meets codec (inbound tcp b codec) (server_loop d t)) (ok-injective h) (refl, refl)
  listened (some c) udp conn a b t h =
      subst (λ t. Meets codec (inbound udp b codec) (server_loop d t)) (ok-injective h) tt
  listened none u conn a b t h = absurd (rejected writes h)
    where
      rejected : (w : Bool) → (reject bind failed_to_bind w u a).result ≡ ok t → ⊥
      rejected true h = cc
      rejected false h = cc

  opened :
      (mode : TunnelMode) (u : UpstreamType) (conn : ℕ) (r : Result LoginError SocketAddr)
      (local : Option SocketAddr) (t : TunnelType)
      → (open_tunnel bind failed_to_bind writes mode u conn r).result ≡ ok t
      → ClientMeets codec (network_loop mode u local codec) (server_loop d t)
  unfolding open_tunnel network_loop server_loop Loops.outbound
  opened mode u conn (err e) local t h = cc
  opened mode u conn (ok a) none t h = tt
  opened mode_out tcp conn (ok a) (some b) t h =
      subst (λ t. Meets codec (Loops.outbound tcp codec) (server_loop d t)) (ok-injective h)
        (refl, refl)
  opened mode_out udp conn (ok a) (some b) t h =
      subst (λ t. Meets codec (Loops.outbound udp codec) (server_loop d t)) (ok-injective h) tt
  opened mode_in u conn (ok a) (some b) t h = listened (bind u a) u conn a b t h

  channel_based-Meets :
      (u : UpstreamType) (conn : ℕ) (config : ServerConfig) (t : TunnelType)
      → (tunnel_type_of bind failed_to_bind writes conn (channel_based u) config).result ≡ ok t
      → Meets codec (Loops.outbound u codec) (server_loop d t)
  unfolding tunnel_type_of server_loop Loops.outbound
  channel_based-Meets tcp conn config t h =
      subst (λ t. Meets codec (Loops.outbound tcp codec) (server_loop d t)) (ok-injective h)
        (by_connector d.tcp_connector)
    where
      by_connector :
          (c : Bool) → Meets codec (serves_tcp codec) (dynamic_tcp c d.default_tcp_upstream)
      by_connector true = (refl, refl)
      by_connector false = (refl, refl)
  channel_based-Meets udp conn config t h =
      subst (λ t. Meets codec (Loops.outbound udp codec) (server_loop d t)) (ok-injective h) tt

  tunnel_type_of-Meets :
      (conn : ℕ) (t : Tunnel) (config : ServerConfig) (tun : TunnelType)
      → (tunnel_type_of bind failed_to_bind writes conn t config).result ≡ ok tun
      → ClientMeets codec (client_loop codec t) (server_loop d tun)
  unfolding tunnel_type_of derive_tunnel_type client_loop
  tunnel_type_of-Meets conn (network_based c) config tun h =
      opened c.mode _ conn _ c.local_server_addr tun h
  tunnel_type_of-Meets conn (channel_based u) config tun h = channel_based-Meets u conn config tun h

  succeeded :
      (caps : ServerCapabilities) (times : TimeoutConfig) (r : Result LoginError TunnelType)
      (l : Login TunnelType) (got : TunnelType × TimeoutConfig)
      → (succeed bind failed_to_bind writes caps times r l).result ≡ ok got
      → r ≡ ok (got.0)
  unfolding succeed
  succeeded caps times r l got h = by_writes writes r h
    where
      by_writes :
          (w : Bool) (r : Result LoginError TunnelType)
          → (succeed bind failed_to_bind w caps times r l).result ≡ ok got
          → r ≡ ok (got.0)
      by_writes w (err e) h = cc
      by_writes true (ok t) h = ap (λ p. ok (p.0)) (ok-injective h)
      by_writes false (ok t) h = cc

  -- When the server accepts the login that announces a tunnel, the loop that the client runs for it
  -- and the one that the server runs belong together: one opens the streams that the other takes,
  -- for TCP or for UDP alike, in both directions and for channel tunnels. The codec of TCP streams is
  -- the client's own on its side, and always the default one, without compression, on the server's.
  pub authenticate_connection-Meets :
      (conn : ℕ) (info : LoginInfo) (caps : ServerCapabilities) (config : ServerConfig)
      (got : TunnelType × TimeoutConfig)
      → (authenticate_connection bind failed_to_bind writes conn
          (ok (req_login info))
          caps
          config).result
        ≡ ok got
      → ClientMeets codec (client_loop codec info.tunnel) (server_loop d (got.0))
  unfolding authenticate_connection login
  authenticate_connection-Meets conn info caps config got h =
      by_password (check_password config.password info.password) h
    where
      by_password :
          (r : Result LoginError (Unit {0}))
          → (login bind failed_to_bind writes conn info caps config r).result ≡ ok got
          → ClientMeets codec (client_loop codec info.tunnel) (server_loop d (got.0))
      by_password (err e) h = cc
      by_password (ok u) h =
          let l = tunnel_type_of bind failed_to_bind writes conn info.tunnel config in
          tunnel_type_of-Meets conn info.tunnel config (got.0)
            (succeeded caps (timeouts bind failed_to_bind writes info config) l.result l got h)

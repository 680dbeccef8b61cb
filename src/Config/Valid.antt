-- ===== src/Config/Valid.antt =====
-- What a configuration that `ClientConfig::create` of src/lib.rs returns satisfies.
use rstun.Base.{
  ℕ, ◌^◌, ◌<◌, ◌≤◌, ◌≡◌, ◌⊎◌, true, not, ◌&&◌, ◌||◌, Option, List, [], ◌∷◌, ◌++◌, ok, ◌>>◌, ensure,
  is_some, All, All-append, arith, subst, bind-ok, ensure-ok, ok-injective,
}
use rstun.Net.{Text, SocketAddr, UpstreamType, tcp, udp, TunnelConfig}
use rstun.Config.Words.{split, text_eq}
use rstun.Config.Mappings.{
  no_mappings, invalid_tunnel_type, any_not_allowed, word_in, word_out, parse_addr, parse_parts,
  parse_each, parse_addr_mappings, comma, caret,
}
use rstun.Config.Create.{
  ServerName, ClientConfig, Arguments, is_empty, or_default, heartbeat_settings, hop_setting,
  parse_sni_names, settings, create,
}

pub record Valid (c : ClientConfig) : Type 0 where
  pub timeouts : (0 < c.quic_timeout_ms) × (0 < c.tcp_timeout_ms) × (0 < c.udp_timeout_ms)
  -- Off by two zeros, or an interval no longer than the timeout.
  pub heartbeat :
      ((c.heartbeat_interval_ms ≡ 0) × (c.heartbeat_timeout_ms ≡ 0))
      ⊎ ((0 < c.heartbeat_interval_ms) × (c.heartbeat_interval_ms ≤ c.heartbeat_timeout_ms))
  pub hop : (c.hop_interval_ms ≡ 0) ⊎ (5000 ≤ c.hop_interval_ms)
  pub codec : (0 < c.zstd_pair_ttl_secs) × (0 < c.zstd_flush_interval_ms)
  pub workers : 0 < c.workers
  pub local_servers : All (λ t. is_some t.local_server_addr ≡ true) c.tunnels

heartbeat_settings-ordered :
    (interval timeout : ℕ)
    → interval < 2 ^ 64
    → (((heartbeat_settings interval timeout).0 ≡ 0)
        × ((heartbeat_settings interval timeout).1 ≡ 0))
      ⊎ ((0 < (heartbeat_settings interval timeout).0)
          × ((heartbeat_settings interval timeout).0 ≤ (heartbeat_settings interval timeout).1))
unfolding heartbeat_settings
heartbeat_settings-ordered interval timeout h = ground arith

hop_setting-spaced : (n : ℕ) → (hop_setting n ≡ 0) ⊎ (5000 ≤ hop_setting n)
unfolding hop_setting
hop_setting-spaced n = ground arith

or_default-positive : (n d : ℕ) → 0 < d → 0 < or_default n d
or_default-positive n d h = ground arith

module _ (parse_socket_addr : Text → Option SocketAddr) where
  parse_parts-local_server :
      (u : UpstreamType) (parts : List Text) (t : TunnelConfig)
      → parse_parts parse_socket_addr u parts ≡ ok t
      → is_some t.local_server_addr ≡ true
  unfolding parse_parts
  parse_parts-local_server u (m ∷ src ∷ dest ∷ []) t e =
      let mode =
        ensure (text_eq m word_out || text_eq m word_in) invalid_tunnel_type
        >> parse_addr parse_socket_addr src in
      let chain = bind-ok mode _ e in
      let rest =
        bind-ok (ensure (is_some chain.0) any_not_allowed >> parse_addr parse_socket_addr dest) _
          chain.2 in
      let local =
        ensure-ok (is_some chain.0) any_not_allowed (parse_addr parse_socket_addr dest) rest.1 in
      subst (λ x. is_some x.local_server_addr ≡ true) (ok-injective rest.2) local.0
  parse_parts-local_server u [] t e = cc
  parse_parts-local_server u (a ∷ []) t e = cc
  parse_parts-local_server u (a ∷ b ∷ []) t e = cc
  parse_parts-local_server u (a ∷ b ∷ c ∷ d ∷ parts) t e = cc

  parse_each-local_servers :
      (u : UpstreamType) (mappings : List Text) (v w : List TunnelConfig)
      → parse_each parse_socket_addr u mappings v ≡ ok w
      → All (λ t. is_some t.local_server_addr ≡ true) v
      → All (λ t. is_some t.local_server_addr ≡ true) w
  unfolding parse_each
  parse_each-local_servers u [] v w e h =
      subst (All (λ t. is_some t.local_server_addr ≡ true)) (ok-injective e) h
  parse_each-local_servers u (m ∷ ms) v w e h =
      let first = bind-ok (parse_parts parse_socket_addr u (split caret m)) _ e in
      parse_each-local_servers u ms (v ++ first.0 ∷ []) w first.2 (
        All-append _ v (first.0 ∷ []) h
          (parse_parts-local_server u (split caret m) first.0 first.1, tt))

  parse_addr_mappings-local_servers :
      (u : UpstreamType) (mappings : Text) (v w : List TunnelConfig)
      → parse_addr_mappings parse_socket_addr mappings u v ≡ ok w
      → All (λ t. is_some t.local_server_addr ≡ true) v
      → All (λ t. is_some t.local_server_addr ≡ true) w
  unfolding parse_addr_mappings
  parse_addr_mappings-local_servers u [] v w e h =
      subst (All (λ t. is_some t.local_server_addr ≡ true)) (ok-injective e) h
  parse_addr_mappings-local_servers u (c ∷ cs) v w e h =
      parse_each-local_servers u (split comma (c ∷ cs)) v w e h

module _ (parse_socket_addr : Text → Option SocketAddr) (parse_server_name : Text → ServerName)
    (num_cpus : ℕ) where
  settings-Valid :
      (a : Arguments) (names : List Text) (tunnels : List TunnelConfig)
      → 0 < num_cpus
      → a.heartbeat_interval_ms < 2 ^ 64
      → All (λ t. is_some t.local_server_addr ≡ true) tunnels
      → Valid (settings parse_socket_addr parse_server_name num_cpus a names tunnels)
  unfolding settings
  settings-Valid a names tunnels cpus lt locals = record {
    timeouts = (ground arith, ground arith, ground arith);
    heartbeat = heartbeat_settings-ordered a.heartbeat_interval_ms a.heartbeat_timeout_ms lt;
    hop = hop_setting-spaced a.hop_interval_ms;
    codec = (ground arith, ground arith);
    workers = or_default-positive a.workers num_cpus cpus;
    local_servers = locals;
  }

-- On a machine with a processor and for an interval of 64 bits, a configuration that `create`
-- returns has timeouts above 0, a heartbeat that is off or whose interval is above 0 and at most the
-- timeout, a hop interval of 0 or at least 5000 ms, a codec lifetime and a flush interval above 0, a
-- worker, and a local server address in every tunnel.
pub create-Valid :
    (parse_socket_addr : Text → Option SocketAddr) (parse_server_name : Text → ServerName)
    (num_cpus : ℕ) (a : Arguments) (c : ClientConfig)
    → 0 < num_cpus
    → a.heartbeat_interval_ms < 2 ^ 64
    → create parse_socket_addr parse_server_name num_cpus a ≡ ok c
    → Valid c
unfolding create
create-Valid parse_socket_addr parse_server_name num_cpus a c cpus lt e =
    let names =
      bind-ok
        (ensure (not (is_empty a.tcp_mappings && is_empty a.udp_mappings)) no_mappings
          >> parse_sni_names parse_server_name a.sni)
        _ e in
    let tcps = bind-ok (parse_addr_mappings parse_socket_addr a.tcp_mappings tcp []) _ names.2 in
    let all = bind-ok (parse_addr_mappings parse_socket_addr a.udp_mappings udp tcps.0) _ tcps.2 in
    let tcp_locals =
      parse_addr_mappings-local_servers parse_socket_addr tcp a.tcp_mappings [] tcps.0 tcps.1 tt in
    let locals =
      parse_addr_mappings-local_servers parse_socket_addr udp a.udp_mappings tcps.0 all.0 all.1
        tcp_locals in
    subst Valid (ok-injective all.2)
      (settings-Valid parse_socket_addr parse_server_name num_cpus a names.0 all.0 cpus lt locals)

-- ===== src/Config/Create.antt =====
-- `ClientConfig::create` and `parse_sni_names` of src/lib.rs. The `SocketAddr` parser, the rustls
-- `ServerName` parser and `num_cpus::get` are parameters;
-- `zstd_level`, an `i32` that is only passed on, is a natural number.
use rstun.Base.{
  ℕ, ◌*◌, ◌-◌, ◌^◌, Bool, true, false, not, ◌&&◌, ◌||◌, Option, List, [], ◌∷◌, ◌++◌, if◌then◌else◌,
  Result, ok, err, ◌>>=◌, ◌>>◌, ensure, ◌==◌, ltb, min,
}
use rstun.Net.{Text, SocketAddr, tcp, udp, TunnelConfig}
use rstun.Config.Words.{split, trim, contains}
use rstun.Config.Mappings.{
  ConfigError, no_mappings, custom_sni_is_ip, invalid_custom_sni, parse_addr_mappings, comma,
}

-- What `ServerName::try_from` makes of a name.
pub data ServerName : Type 0 where
  dns_name ip_address not_a_name : ServerName

pub record ClientConfig : Type 0 where
  pub cert_path : Text
  pub server_addr : Text
  pub password : Text
  pub wait_before_retry_ms : ℕ
  pub quic_timeout_ms : ℕ
  pub tcp_timeout_ms : ℕ
  pub udp_timeout_ms : ℕ
  pub heartbeat_interval_ms : ℕ
  pub heartbeat_timeout_ms : ℕ
  pub hop_interval_ms : ℕ
  pub tunnels : List TunnelConfig
  pub dot_servers : List Text
  pub dns_servers : List Text
  pub workers : ℕ
  pub quic_receive_window : ℕ
  pub stream_receive_window : ℕ
  pub quic_send_window : ℕ
  pub sni_names : List Text
  pub zstd : Bool
  pub http : Bool
  pub zstd_level : ℕ
  pub zstd_window_log : ℕ
  pub zstd_dict : Text
  pub zstd_pair_ttl_secs : ℕ
  pub zstd_flush_interval_ms : ℕ

-- The arguments of `create`.
pub record Arguments : Type 0 where
  pub server_addr : Text
  pub password : Text
  pub cert : Text
  pub tcp_mappings : Text
  pub udp_mappings : Text
  pub dot : Text
  pub dns : Text
  pub sni : Text
  pub workers : ℕ
  pub wait_before_retry_ms : ℕ
  pub quic_timeout_ms : ℕ
  pub tcp_timeout_ms : ℕ
  pub udp_timeout_ms : ℕ
  pub heartbeat_interval_ms : ℕ
  pub heartbeat_timeout_ms : ℕ
  pub hop_interval_ms : ℕ
  pub zstd : Bool
  pub http : Bool
  pub zstd_level : ℕ
  pub zstd_window_log : ℕ
  pub zstd_dict : Text
  pub zstd_pair_ttl_secs : ℕ
  pub zstd_flush_interval_ms : ℕ

-- A setting of 0 stands for its default.
abbrev pub or_default : ℕ → ℕ → ℕ
or_default n default_value = if n == 0 then default_value else n

-- `u64::saturating_mul`.
abbrev pub saturating_mul : ℕ → ℕ → ℕ
saturating_mul a b = min (a * b) (2 ^ 64 - 1)

-- The interval and the timeout of the heartbeat.
unfoldable pub heartbeat_settings : ℕ → ℕ → ℕ × ℕ
heartbeat_settings interval timeout =
    if interval == 0 && timeout == 0
    then (5000, 15000)
    else if interval == 0 || timeout == 0
    then (0, 0)
    else if ltb timeout interval
    then (interval, saturating_mul interval 2)
    else (interval, timeout)

unfoldable pub hop_setting : ℕ → ℕ
hop_setting hop_interval_ms =
    if not (hop_interval_ms == 0) && ltb hop_interval_ms 5000 then 5000 else hop_interval_ms

-- "127.0.0.1:"
abbrev pub localhost_prefix : Text
localhost_prefix = 49 ∷ 50 ∷ 55 ∷ 46 ∷ 48 ∷ 46 ∷ 48 ∷ 46 ∷ 49 ∷ 58 ∷ []

unfoldable pub server_addr_setting : Text → Text
server_addr_setting server_addr =
    if contains 58 server_addr then server_addr else localhost_prefix ++ server_addr

abbrev pub is_empty : Text → Bool
is_empty [] = true
is_empty (c ∷ cs) = false

module _ (parse_server_name : Text → ServerName) where
  add_name : ServerName → Text → Result ConfigError (List Text) → Result ConfigError (List Text)
  add_name dns_name name rest = rest >>= λ names. ok (name ∷ names)
  add_name ip_address name rest = err custom_sni_is_ip
  add_name not_a_name name rest = err invalid_custom_sni

  unfoldable pub parse_names : List Text → Result ConfigError (List Text)
  unfolding add_name
  parse_names [] = ok []
  parse_names (raw ∷ pieces) =
      let name = trim raw in
      let rest = parse_names pieces in
      if is_empty name then rest else add_name (parse_server_name name) name rest

  unfoldable pub parse_sni_names : Text → Result ConfigError (List Text)
  parse_sni_names sni = parse_names (split comma sni)

module _ (parse_socket_addr : Text → Option SocketAddr) (parse_server_name : Text → ServerName)
    (num_cpus : ℕ) where
  unfoldable pub settings : Arguments → List Text → List TunnelConfig → ClientConfig
  settings a sni_names tunnels = record {
    cert_path = a.cert;
    server_addr = server_addr_setting a.server_addr;
    password = a.password;
    wait_before_retry_ms = a.wait_before_retry_ms;
    quic_timeout_ms = or_default a.quic_timeout_ms 30000;
    tcp_timeout_ms = or_default a.tcp_timeout_ms 30000;
    udp_timeout_ms = or_default a.udp_timeout_ms 5000;
    heartbeat_interval_ms = (heartbeat_settings a.heartbeat_interval_ms a.heartbeat_timeout_ms).0;
    heartbeat_timeout_ms = (heartbeat_settings a.heartbeat_interval_ms a.heartbeat_timeout_ms).1;
    hop_interval_ms = hop_setting a.hop_interval_ms;
    tunnels = tunnels;
    dot_servers = split comma a.dot;
    dns_servers = split comma a.dns;
    workers = or_default a.workers num_cpus;
    quic_receive_window = 0;
    stream_receive_window = 0;
    quic_send_window = 0;
    sni_names = sni_names;
    zstd = a.zstd;
    http = a.http;
    zstd_level = a.zstd_level;
    zstd_window_log = a.zstd_window_log;
    zstd_dict = a.zstd_dict;
    zstd_pair_ttl_secs = or_default a.zstd_pair_ttl_secs 18000;
    zstd_flush_interval_ms = or_default a.zstd_flush_interval_ms 150;
  }

  unfoldable pub create : Arguments → Result ConfigError ClientConfig
  create a =
      ensure (not (is_empty a.tcp_mappings && is_empty a.udp_mappings)) no_mappings
      >> parse_sni_names parse_server_name a.sni
      >>= λ sni_names.
          parse_addr_mappings parse_socket_addr a.tcp_mappings tcp [] >>= λ tcp_tunnels.
          parse_addr_mappings parse_socket_addr a.udp_mappings udp tcp_tunnels >>= λ tunnels.
          ok (settings a sni_names tunnels)

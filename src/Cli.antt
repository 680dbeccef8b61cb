-- ===== src/Cli.antt =====
-- The command line of src/bin/rstun.rs: its arguments as clap hands them over, and the
-- configurations that `run_client`, `run_server_async` and `parse_upstreams` make of them. The
-- `SocketAddr` and `ServerName` parsers and `num_cpus::get` are parameters.
pub mod Upstreams
use rstun.Base.{
  ℕ, zero, suc, Bool, true, false, Option, none, some, List, [], ◌∷◌, ◌++◌, length, ◌&&◌, ◌==◌,
  if◌then◌else◌, Result, ok, err, ◌>>=◌, ltb,
}
use rstun.Net.{Text, SocketAddr, UpstreamType, tcp, udp}
use rstun.Config.Words.{contains}
use rstun.Config.Mappings.{ConfigError}
use rstun.Config.Create.{ClientConfig, ServerName, create, localhost_prefix, is_empty}

pub record ClientArgs : Type 0 where
  pub server_addr : Text
  pub password : Text
  pub tcp_mappings : Text
  pub udp_mappings : Text
  pub cert : Text
  pub workers : ℕ
  pub wait_before_retry_ms : ℕ
  pub quic_timeout_ms : ℕ
  pub tcp_timeout_ms : ℕ
  pub udp_timeout_ms : ℕ
  pub heartbeat_interval_ms : ℕ
  pub heartbeat_timeout_ms : ℕ
  pub hop_interval_ms : ℕ
  pub dot : Text
  pub dns : Text
  pub sni_names : Text
  pub zstd : Bool
  pub http : Bool
  pub zstd_level : ℕ
  pub zstd_window_log : ℕ
  pub zstd_dict : Text
  pub zstd_pair_ttl_secs : ℕ
  pub zstd_flush_interval_ms : ℕ

-- The defaults of clap, with the two required arguments.
unfoldable pub client_defaults : Text → Text → ClientArgs
client_defaults server_addr password = record {
  server_addr = server_addr;
  password = password;
  tcp_mappings = [];
  udp_mappings = [];
  cert = [];
  workers = 0;
  wait_before_retry_ms = 5000;
  quic_timeout_ms = 30000;
  tcp_timeout_ms = 30000;
  udp_timeout_ms = 5000;
  heartbeat_interval_ms = 5000;
  heartbeat_timeout_ms = 15000;
  hop_interval_ms = 0;
  dot = [];
  dns = [];
  sni_names = [];
  zstd = false;
  http = false;
  zstd_level = 9;
  zstd_window_log = 24;
  zstd_dict = [];
  zstd_pair_ttl_secs = 0;
  zstd_flush_interval_ms = 0;
}

pub record ServerArgs : Type 0 where
  pub addr : Text
  pub tcp_upstream : Text
  pub udp_upstream : Text
  pub password : Text
  pub cert : Text
  pub key : Text
  pub workers : ℕ
  pub quic_timeout_ms : ℕ
  pub tcp_timeout_ms : ℕ
  pub udp_timeout_ms : ℕ

-- `ServerConfig` of src/lib.rs, without the connectors, which are `None` here.
pub record ServerConfig : Type 0 where
  pub addr : Text
  pub password : Text
  pub cert_path : Text
  pub key_path : Text
  pub quic_timeout_ms : ℕ
  pub tcp_timeout_ms : ℕ
  pub udp_timeout_ms : ℕ
  pub quic_receive_window : ℕ
  pub stream_receive_window : ℕ
  pub quic_send_window : ℕ
  pub default_tcp_upstream : Option SocketAddr
  pub default_udp_upstream : Option SocketAddr
  pub dashboard_server : Text
  pub dashboard_server_credential : Text

pub data CliError : Type 0 where
  invalid_upstream : UpstreamType → Text → CliError

-- "0.0.0.0:"
abbrev pub unspecified_prefix : Text
unspecified_prefix = 48 ∷ 46 ∷ 48 ∷ 46 ∷ 48 ∷ 46 ∷ 48 ∷ 58 ∷ []

abbrev pub colon : ℕ
colon = 58

unfoldable pub starts_with : Text → Text → Bool
starts_with [] text = true
starts_with (p ∷ ps) [] = false
starts_with (p ∷ ps) (c ∷ cs) = p == c && starts_with ps cs

-- `str::replace`, from the left and without overlaps: `skip` bytes belong to an occurrence.
unfoldable pub replace_from : Text → Text → ℕ → Text → Text
replace_from from to skip [] = []
replace_from from to (suc skip) (c ∷ cs) = replace_from from to skip cs
replace_from from to zero (c ∷ cs) = elim (starts_with from (c ∷ cs)) [
  | true ↦ to ++ replace_from from to (skip_of from) cs
  | false ↦ c ∷ replace_from from to zero cs
]
  where
    skip_of : Text → ℕ
    skip_of [] = 0
    skip_of (p ∷ ps) = length ps

module _ (parse_socket_addr : Text → Option SocketAddr) where
  unfoldable pub parsed :
      UpstreamType → Text → Option SocketAddr → Result CliError (Option SocketAddr)
  parsed u text (some a) = ok (some a)
  parsed u text none = err (invalid_upstream u text)

  -- The address of an upstream: the loopback address in the place of the unspecified one, and before
  -- a port alone.
  unfoldable pub upstream_text : Text → Text
  unfolding starts_with replace_from
  upstream_text text =
      let upstream =
        if starts_with unspecified_prefix text
        then replace_from unspecified_prefix localhost_prefix 0 text
        else text in
      if contains colon upstream then upstream else localhost_prefix ++ text

  unfoldable pub parse_upstreams : UpstreamType → Text → Result CliError (Option SocketAddr)
  unfolding parsed upstream_text
  parse_upstreams u [] = ok none
  parse_upstreams u (c ∷ cs) = parsed u (c ∷ cs) (parse_socket_addr (upstream_text (c ∷ cs)))

  -- "0.0.0.0:0" for no address, then the loopback address before a port alone.
  unfoldable pub server_addr : Text → Text
  server_addr [] = unspecified_prefix ++ 48 ∷ []
  server_addr (c ∷ cs) = if contains colon (c ∷ cs) then c ∷ cs else localhost_prefix ++ (c ∷ cs)

  unfoldable pub run_server_async : ServerArgs → Result CliError ServerConfig
  run_server_async args = do
    default_tcp_upstream ← parse_upstreams tcp args.tcp_upstream
    default_udp_upstream ← parse_upstreams udp args.udp_upstream
    ok (record {
      addr = server_addr args.addr;
      password = args.password;
      cert_path = args.cert;
      key_path = args.key;
      quic_timeout_ms = args.quic_timeout_ms;
      tcp_timeout_ms = args.tcp_timeout_ms;
      udp_timeout_ms = args.udp_timeout_ms;
      quic_receive_window = 0;
      stream_receive_window = 0;
      quic_send_window = 0;
      default_tcp_upstream = default_tcp_upstream;
      default_udp_upstream = default_udp_upstream;
      dashboard_server = [];
      dashboard_server_credential = [];
    })

  -- The configuration of the client, if `create` accepts the arguments.
  unfoldable pub run_client : (Text → ServerName) → ℕ → ClientArgs → Result ConfigError ClientConfig
  run_client parse_server_name num_cpus args =
      create parse_socket_addr parse_server_name num_cpus (record {
        server_addr = args.server_addr;
        password = args.password;
        cert = args.cert;
        tcp_mappings = args.tcp_mappings;
        udp_mappings = args.udp_mappings;
        dot = args.dot;
        dns = args.dns;
        sni = args.sni_names;
        workers = args.workers;
        wait_before_retry_ms = args.wait_before_retry_ms;
        quic_timeout_ms = args.quic_timeout_ms;
        tcp_timeout_ms = args.tcp_timeout_ms;
        udp_timeout_ms = args.udp_timeout_ms;
        heartbeat_interval_ms = args.heartbeat_interval_ms;
        heartbeat_timeout_ms = args.heartbeat_timeout_ms;
        hop_interval_ms = args.hop_interval_ms;
        zstd = args.zstd;
        http = args.http;
        zstd_level = args.zstd_level;
        zstd_window_log = args.zstd_window_log;
        zstd_dict = args.zstd_dict;
        zstd_pair_ttl_secs = args.zstd_pair_ttl_secs;
        zstd_flush_interval_ms = args.zstd_flush_interval_ms;
      })

-- The worker threads of the server.
unfoldable pub server_workers : ℕ → ServerArgs → ℕ
server_workers num_cpus args = if ltb 0 args.workers then args.workers else num_cpus

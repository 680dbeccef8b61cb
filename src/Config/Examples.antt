-- ===== src/Config/Examples.antt =====
-- The configuration at concrete arguments.
use rstun.Base.{
  ◌≡◌, ◌++◌, refl, true, false, Option, none, some, List, [], ◌∷◌, ok, map, arith, if◌then◌else◌,
  ◌==◌,
}
use rstun.Net.{Text, SocketAddr, v4, mode_in, mode_out, tcp, udp, TunnelConfig}
use rstun.Config.Words.{
  split, trim, trim_start, trim_end, contains, parse_digits, parse_number, text_eq,
}
use rstun.Config.Mappings.{localhost_port, parse_addr, parse_parts, parse_each, parse_addr_mappings}
use rstun.Config.Create.{
  ServerName, dns_name, Arguments, heartbeat_settings, parse_names, parse_sni_names, settings,
  create,
}
use rstun.Config.Transport.{Sound, build_quic_transport_config, build_quic_transport_config-Sound}
use rstun.Config.Valid.{Valid, create-Valid}
use rstun.Config.RoundTrip.{
  Mapping, tunnel, IsPrinted, show_mappings, parse_addr_mappings-show_mappings,
}

-- "OUT^9000^ANY,IN^80^81"
abbrev mappings : Text
mappings =
    79 ∷ 85 ∷ 84 ∷ 94 ∷ 57 ∷ 48 ∷ 48 ∷ 48 ∷ 94 ∷ 65 ∷ 78 ∷ 89 ∷ 44 ∷ 73 ∷ 78 ∷ 94 ∷ 56 ∷ 48 ∷ 94
    ∷ 56 ∷ 49 ∷ []

abbrev no_address : Text → Option SocketAddr
no_address word = none

abbrev all_dns : Text → ServerName
all_dns name = dns_name

abbrev arguments : Arguments
arguments = record {
  server_addr = 57 ∷ 48 ∷ [];
  password = 112 ∷ [];
  cert = [];
  tcp_mappings = mappings;
  udp_mappings = [];
  dot = [];
  dns = [];
  sni = 32 ∷ 97 ∷ 46 ∷ 98 ∷ 32 ∷ 44 ∷ [];
  workers = 0;
  wait_before_retry_ms = 5000;
  quic_timeout_ms = 0;
  tcp_timeout_ms = 0;
  udp_timeout_ms = 0;
  heartbeat_interval_ms = 9000;
  heartbeat_timeout_ms = 100;
  hop_interval_ms = 10;
  zstd = true;
  http = false;
  zstd_level = 9;
  zstd_window_log = 24;
  zstd_dict = [];
  zstd_pair_ttl_secs = 0;
  zstd_flush_interval_ms = 0;
}

abbrev tunnels : List TunnelConfig
tunnels =
    record {
      mode = mode_out;
      local_server_addr = some (localhost_port 9000);
      upstream = record { upstream_addr = none; upstream_type = tcp };
    }
    ∷ record {
      mode = mode_in;
      local_server_addr = some (localhost_port 80);
      upstream = record { upstream_addr = some (localhost_port 81); upstream_type = tcp };
    }
    ∷ []

created :
    create no_address all_dns 8 arguments
    ≡ ok (settings no_address all_dns 8 arguments ((97 ∷ 46 ∷ 98 ∷ []) ∷ []) tunnels)
unfolding create parse_sni_names parse_names parse_addr_mappings parse_each parse_parts parse_addr
    parse_number parse_digits split trim trim_start trim_end contains text_eq
created = refl

-- A no-break space before and an em space after.
trimmed : trim (194 ∷ 160 ∷ 32 ∷ 97 ∷ 226 ∷ 128 ∷ 131 ∷ []) ≡ 97 ∷ []
unfolding trim trim_start trim_end
trimmed = refl

raised_timeout : heartbeat_settings 9000 100 ≡ (9000, 18000)
unfolding heartbeat_settings
raised_timeout = refl

create-Valid_example :
    Valid (settings no_address all_dns 8 arguments ((97 ∷ 46 ∷ 98 ∷ []) ∷ []) tunnels)
create-Valid_example =
    create-Valid no_address all_dns 8 arguments
      (settings no_address all_dns 8 arguments ((97 ∷ 46 ∷ 98 ∷ []) ∷ []) tunnels) (omega arith)
      (omega arith) created

build_quic_transport_config-Sound_example : Sound 30000 (build_quic_transport_config 30000 0 0 0)
build_quic_transport_config-Sound_example =
    build_quic_transport_config-Sound 30000 0 0 0 (omega arith)

-- The address 10.0.0.1:53 printed as "s:d".
abbrev host : SocketAddr
host = record { ip = v4 (10 ∷ 0 ∷ 0 ∷ 1 ∷ []); port = 53 }

abbrev parse_host : Text → Option SocketAddr
parse_host [] = none
parse_host (c ∷ word) = if c == 115 then some host else none

abbrev show_host : SocketAddr → Text
show_host a = 115 ∷ 58 ∷ 100 ∷ []

host-IsPrinted : IsPrinted parse_host show_host host
unfolding parse_number parse_digits text_eq contains
host-IsPrinted = record {
  parses = refl;
  no_number = refl;
  not_any = refl;
  no_comma = refl;
  no_caret = refl;
}

abbrev first : Mapping
first = record { mode = mode_out; src = host; dest = none }

abbrev second : Mapping
second = record { mode = mode_in; src = host; dest = some host }

parse_addr_mappings-show_mappings_example :
    parse_addr_mappings parse_host (show_mappings parse_host show_host first (second ∷ [])) udp []
    ≡ ok ([] ++ map (tunnel udp) (first ∷ second ∷ []))
parse_addr_mappings-show_mappings_example =
    parse_addr_mappings-show_mappings parse_host show_host udp first (second ∷ []) []
      ((host-IsPrinted, tt), ((host-IsPrinted, host-IsPrinted), tt))

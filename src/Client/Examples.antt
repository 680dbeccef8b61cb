-- ===== src/Client/Examples.antt =====
-- The client at concrete attempts, timings and addresses.
use rstun.Base.{
  ℕ, ◌+◌, ◌*◌, ◌%◌, ◌^◌, none, List, is_some, ◌⊎◌, length, ◌==◌, ◌≡◌, refl, true, false, some, [],
  ◌∷◌, ok, err,
}
use rstun.Net.{Text, SocketAddr, v4}
use rstun.Message.{resp_success}
use rstun.Client.{new, done, Stages, login}
use rstun.Client.Attempts.{LoginOutcome, login-outcome}
use rstun.TcpServer
use rstun.Client.Serve.{
  Servers, start_tcp_server, found_tcp, get, insert, with_tcp_server, get_or_init_tcp_receiver,
  get_or_init, taken, receiver_taken, serve_outbound_tcp, closed_first, task_first, udp_connections,
  binds_within,
}
use rstun.Client.Receivers.{serve_outbound_tcp_again, udp_connections_lost}
use rstun.UdpServer
use rstun.Config.Create.{dns_name, not_a_name}
use rstun.Client.Tls.{Library, Presented, domain_of, accepts}
use rstun.Client.Traffic.{
  ConnectionStats, no_traffic, add_connection_stats_to_total, report, bytes_sent, reported,
  report-add_connection_stats_to_total,
}
use rstun.Client.Trust.{IsTrusted, accepts-IsTrusted}
use rstun.Client.CustomSni.{Usable, verifies_host, accepts-verifies_host}

abbrev good : Stages
good = record {
  connect = done 4;
  open_bi = done tt;
  send_request = done tt;
  receive_response = done (resp_success (record { ipv6_supported = true }));
}

login-outcome_example : LoginOutcome good new (login good new)
login-outcome_example = login-outcome good new

abbrev four : SocketAddr
four = record { ip = v4 (10 ∷ 0 ∷ 0 ∷ 1 ∷ []); port = 6060 }

abbrev no_servers : Servers
no_servers = record { tcp_servers = []; udp_servers = []; tcp_receivers = [] }

first_served : (serve_outbound_tcp four (false ∷ true ∷ []) 7 no_servers).0 ≡ ok 7
unfolding serve_outbound_tcp found_tcp start_tcp_server binds_within with_tcp_server
    get_or_init_tcp_receiver get_or_init taken get insert TcpServer.take_receiver TcpServer.start
first_served = refl

serve_outbound_tcp_again_example :
    serve_outbound_tcp four [] 8 (serve_outbound_tcp four (false ∷ true ∷ []) 7 no_servers).1
    ≡ (ok 7, (serve_outbound_tcp four (false ∷ true ∷ []) 7 no_servers).1)
serve_outbound_tcp_again_example =
    serve_outbound_tcp_again four 7 (false ∷ true ∷ []) [] 7 8 no_servers first_served

started : (UdpServer.start four 5).udp_receiver ≡ some 5
unfolding UdpServer.start
started = refl

udp_connections_lost_example :
    udp_connections
      (task_first ∷ closed_first ∷ task_first ∷ task_first ∷ [])
      (UdpServer.start four 5)
    ≡ ok 5 ∷ ok 5 ∷ err receiver_taken ∷ err receiver_taken ∷ []
udp_connections_lost_example =
    udp_connections_lost (task_first ∷ []) (task_first ∷ task_first ∷ []) (UdpServer.start four 5) 5
      started (refl, tt)

-- A certificate is for the hosts of its length.
abbrev library : Library
library = record {
  parse_socket_addr = λ t. none;
  parse_server_name = λ t. elim t [ [] ↦ not_a_name | c ∷ cs ↦ dns_name ];
  load_certificates = λ path. some ((5 ∷ []) ∷ []);
  addable = λ c. true;
  builds = λ t. true;
  verifies = λ t p name. length p.end_entity == length name;
}

-- "host:80"
abbrev server : Text
server = 104 ∷ 111 ∷ 115 ∷ 116 ∷ 58 ∷ 56 ∷ 48 ∷ []

abbrev cover_names : List Text
cover_names = (97 ∷ []) ∷ (98 ∷ []) ∷ []

abbrev shown : Presented
shown = record { end_entity = 1 ∷ 2 ∷ 3 ∷ 4 ∷ []; intermediates = [] }

shown-accepted : accepts library (99 ∷ []) server cover_names 7 shown ≡ true
unfolding accepts rstun.Client.Tls.parse_client_config_and_domain
    rstun.Client.Tls.wrap_with_custom_sni_verifier domain_of
    rstun.Client.Address.split_at_last_colon rstun.Client.Timing.select_sni_name
    rstun.Client.Tls.verify_server_cert
shown-accepted = refl

accepts-IsTrusted_example :
    (◌≡◌ {A = Text} (99 ∷ []) [] × (is_some (library.parse_socket_addr server) ≡ true))
    ⊎ IsTrusted library (99 ∷ []) server shown
accepts-IsTrusted_example =
    accepts-IsTrusted library (99 ∷ []) server cover_names 7 shown shown-accepted

cover_names-Usable : Usable library [] server cover_names
unfolding domain_of rstun.Client.Address.split_at_last_colon
cover_names-Usable = record {
  builds = λ t n. refl;
  localhost_name = refl;
  host_name = refl;
  custom_names = (refl, (refl, tt));
}

accepts-verifies_host_example :
    accepts library [] server cover_names 7 shown ≡ verifies_host library [] server shown
accepts-verifies_host_example =
    accepts-verifies_host library [] server cover_names 7 shown cover_names-Usable

abbrev transfer : ℕ → ConnectionStats
transfer n = record {
  rx_bytes = n;
  tx_bytes = 2 * n;
  rx_dgrams = 1;
  tx_dgrams = 2;
  sent_packets = 2;
  lost_packets = 0;
  lost_bytes = 0;
  congestion_events = 0;
  black_holes = 0;
  rtt_ms = 20;
  cwnd = 12000;
  current_mtu = 1200;
}

report-add_connection_stats_to_total_example :
    (reported bytes_sent (
        report
          (transfer 10 ∷ transfer 30 ∷ [])
          (add_connection_stats_to_total no_traffic (transfer 30)))
      ≡ (reported bytes_sent (report (transfer 10 ∷ transfer 30 ∷ []) no_traffic) + 60) % 2 ^ 64)
    × (reported bytes_sent
          (report (transfer 10 ∷ []) (add_connection_stats_to_total no_traffic (transfer 30)))
        ≡ reported bytes_sent (report (transfer 10 ∷ transfer 30 ∷ []) no_traffic))
report-add_connection_stats_to_total_example =
    report-add_connection_stats_to_total bytes_sent (transfer 10 ∷ []) [] (transfer 30) no_traffic

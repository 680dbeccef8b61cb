-- ===== src/Client/Traffic.antt =====
-- The traffic that the client of src/client.rs reports: `append_conn_stats_to_tunnel_stat`,
-- `add_connection_stats_to_total` and the sums of `report_traffic_data_in_background`. Additions
-- wrap around, as in a release build.
use rstun.Base.{ℕ, ◌+◌, ◌%◌, ◌^◌, max, ◌≡◌, refl, ap, List, [], ◌∷◌, ◌++◌, arith}
use rstun.Events.{TunnelStat}

-- `ConnectionStats` of quinn, as far as it is read.
pub record ConnectionStats : Type 0 where
  pub rx_bytes : ℕ
  pub tx_bytes : ℕ
  pub rx_dgrams : ℕ
  pub tx_dgrams : ℕ
  pub sent_packets : ℕ
  pub lost_packets : ℕ
  pub lost_bytes : ℕ
  pub congestion_events : ℕ
  pub black_holes : ℕ
  pub rtt_ms : ℕ
  pub cwnd : ℕ
  pub current_mtu : ℕ

abbrev add : ℕ → ℕ → ℕ
add a b = (a + b) % 2 ^ 64

-- `TunnelStat::default`.
abbrev pub no_traffic : TunnelStat
no_traffic = record {
  rx_bytes = 0;
  tx_bytes = 0;
  tx_dgrams = 0;
  rx_dgrams = 0;
  sent_packets = 0;
  lost_packets = 0;
  lost_bytes = 0;
  congestion_events = 0;
  active_conns = 0;
  rtt_ms = 0;
  cwnd_bytes = 0;
  current_mtu = 0;
  black_holes = 0;
}

unfoldable pub append_conn_stats_to_tunnel_stat : TunnelStat → ConnectionStats → TunnelStat
append_conn_stats_to_tunnel_stat s c = record {
  rx_bytes = add s.rx_bytes c.rx_bytes;
  tx_bytes = add s.tx_bytes c.tx_bytes;
  tx_dgrams = add s.tx_dgrams c.tx_dgrams;
  rx_dgrams = add s.rx_dgrams c.rx_dgrams;
  sent_packets = add s.sent_packets c.sent_packets;
  lost_packets = add s.lost_packets c.lost_packets;
  lost_bytes = add s.lost_bytes c.lost_bytes;
  congestion_events = add s.congestion_events c.congestion_events;
  active_conns = (s.active_conns + 1) % 2 ^ 32;
  rtt_ms = max s.rtt_ms c.rtt_ms;
  cwnd_bytes = max s.cwnd_bytes c.cwnd;
  current_mtu = max s.current_mtu c.current_mtu;
  black_holes = add s.black_holes c.black_holes;
}

unfoldable pub add_connection_stats_to_total : TunnelStat → ConnectionStats → TunnelStat
add_connection_stats_to_total s c = record s {
  rx_bytes = add s.rx_bytes c.rx_bytes;
  tx_bytes = add s.tx_bytes c.tx_bytes;
  rx_dgrams = add s.rx_dgrams c.rx_dgrams;
  tx_dgrams = add s.tx_dgrams c.tx_dgrams;
  sent_packets = add s.sent_packets c.sent_packets;
  lost_packets = add s.lost_packets c.lost_packets;
  lost_bytes = add s.lost_bytes c.lost_bytes;
  congestion_events = add s.congestion_events c.congestion_events;
  black_holes = add s.black_holes c.black_holes;
}

unfoldable pub append_all : TunnelStat → List ConnectionStats → TunnelStat
append_all s [] = s
append_all s (c ∷ conns) = append_all (append_conn_stats_to_tunnel_stat s c) conns

unfoldable pub add_total : TunnelStat → TunnelStat → TunnelStat
add_total s t = record s {
  rx_bytes = add s.rx_bytes t.rx_bytes;
  tx_bytes = add s.tx_bytes t.tx_bytes;
  rx_dgrams = add s.rx_dgrams t.rx_dgrams;
  tx_dgrams = add s.tx_dgrams t.tx_dgrams;
  sent_packets = add s.sent_packets t.sent_packets;
  lost_packets = add s.lost_packets t.lost_packets;
  lost_bytes = add s.lost_bytes t.lost_bytes;
  congestion_events = add s.congestion_events t.congestion_events;
  black_holes = add s.black_holes t.black_holes;
}

-- What is reported: the open connections, then the total of the closed ones.
unfoldable pub report : List ConnectionStats → TunnelStat → TunnelStat
unfolding append_all add_total
report connections total = add_total (append_all no_traffic connections) total

-- The counters that add up, in a report and in a connection.
pub data Counter : Type 0 where
  bytes_received bytes_sent dgrams_received dgrams_sent packets_sent packets_lost bytes_lost
        congestions holes :
      Counter

abbrev pub reported : Counter → TunnelStat → ℕ
reported bytes_received s = s.rx_bytes
reported bytes_sent s = s.tx_bytes
reported dgrams_received s = s.rx_dgrams
reported dgrams_sent s = s.tx_dgrams
reported packets_sent s = s.sent_packets
reported packets_lost s = s.lost_packets
reported bytes_lost s = s.lost_bytes
reported congestions s = s.congestion_events
reported holes s = s.black_holes

abbrev pub counted : Counter → ConnectionStats → ℕ
counted bytes_received c = c.rx_bytes
counted bytes_sent c = c.tx_bytes
counted dgrams_received c = c.rx_dgrams
counted dgrams_sent c = c.tx_dgrams
counted packets_sent c = c.sent_packets
counted packets_lost c = c.lost_packets
counted bytes_lost c = c.lost_bytes
counted congestions c = c.congestion_events
counted holes c = c.black_holes

-- A definition that adds, by its counters.
reported-append :
    (k : Counter) (s : TunnelStat) (c : ConnectionStats)
    → reported k (append_conn_stats_to_tunnel_stat s c) ≡ (reported k s + counted k c) % 2 ^ 64
unfolding append_conn_stats_to_tunnel_stat
reported-append bytes_received s c = refl
reported-append bytes_sent s c = refl
reported-append dgrams_received s c = refl
reported-append dgrams_sent s c = refl
reported-append packets_sent s c = refl
reported-append packets_lost s c = refl
reported-append bytes_lost s c = refl
reported-append congestions s c = refl
reported-append holes s c = refl

reported-add_connection :
    (k : Counter) (s : TunnelStat) (c : ConnectionStats)
    → reported k (add_connection_stats_to_total s c) ≡ (reported k s + counted k c) % 2 ^ 64
unfolding add_connection_stats_to_total
reported-add_connection bytes_received s c = refl
reported-add_connection bytes_sent s c = refl
reported-add_connection dgrams_received s c = refl
reported-add_connection dgrams_sent s c = refl
reported-add_connection packets_sent s c = refl
reported-add_connection packets_lost s c = refl
reported-add_connection bytes_lost s c = refl
reported-add_connection congestions s c = refl
reported-add_connection holes s c = refl

reported-add_total :
    (k : Counter) (s t : TunnelStat)
    → reported k (add_total s t) ≡ (reported k s + reported k t) % 2 ^ 64
unfolding add_total
reported-add_total bytes_received s t = refl
reported-add_total bytes_sent s t = refl
reported-add_total dgrams_received s t = refl
reported-add_total dgrams_sent s t = refl
reported-add_total packets_sent s t = refl
reported-add_total packets_lost s t = refl
reported-add_total bytes_lost s t = refl
reported-add_total congestions s t = refl
reported-add_total holes s t = refl

abbrev sum_of : Counter → List ConnectionStats → ℕ
sum_of k [] = 0
sum_of k (c ∷ conns) = counted k c + sum_of k conns

sum_of-insert :
    (k : Counter) (before after : List ConnectionStats) (c : ConnectionStats)
    → sum_of k (before ++ (c ∷ after)) ≡ counted k c + sum_of k (before ++ after)
sum_of-insert k [] after c = refl
sum_of-insert k (b ∷ before) after c = omega (arith, sum_of-insert k before after c)

reported-append_all :
    (k : Counter) (s : TunnelStat) (conns : List ConnectionStats)
    → reported k (append_all s conns) % 2 ^ 64 ≡ (reported k s + sum_of k conns) % 2 ^ 64
unfolding append_all
reported-append_all k s [] = ap (λ n. n % 2 ^ 64) (omega arith)
reported-append_all k s (c ∷ conns) = omega (
  arith,
  reported-append_all k (append_conn_stats_to_tunnel_stat s c) conns,
  reported-append k s c,
)

reported-no_traffic : (k : Counter) → reported k no_traffic ≡ 0
reported-no_traffic bytes_received = refl
reported-no_traffic bytes_sent = refl
reported-no_traffic dgrams_received = refl
reported-no_traffic dgrams_sent = refl
reported-no_traffic packets_sent = refl
reported-no_traffic packets_lost = refl
reported-no_traffic bytes_lost = refl
reported-no_traffic congestions = refl
reported-no_traffic holes = refl

reported-report :
    (k : Counter) (conns : List ConnectionStats) (total : TunnelStat)
    → reported k (report conns total) ≡ (sum_of k conns + reported k total) % 2 ^ 64
unfolding report
reported-report k conns total = omega (
  arith,
  reported-add_total k (append_all no_traffic conns) total,
  reported-append_all k no_traffic conns,
  reported-no_traffic k,
)

-- A connection that ends is added to the total and then taken out of the table, which holds others
-- before and after it. In between a report counts its traffic twice, on each of the counters that
-- add up; afterwards the report is the one before its end.
pub report-add_connection_stats_to_total :
    (k : Counter) (before after : List ConnectionStats) (c : ConnectionStats) (total : TunnelStat)
    → (reported k (report (before ++ (c ∷ after)) (add_connection_stats_to_total total c))
        ≡ (reported k (report (before ++ (c ∷ after)) total) + counted k c) % 2 ^ 64)
      × (reported k (report (before ++ after) (add_connection_stats_to_total total c))
          ≡ reported k (report (before ++ (c ∷ after)) total))
report-add_connection_stats_to_total k before after c total =
    let later = add_connection_stats_to_total total c in
    let open_twice = reported-report k (before ++ (c ∷ after)) later in
    let open_once = reported-report k (before ++ (c ∷ after)) total in
    let closed = reported-report k (before ++ after) later in
    let sums = sum_of-insert k before after c in
    let added = reported-add_connection k total c in
    (omega (arith, open_twice, open_once, added), omega (arith, closed, open_once, sums, added))

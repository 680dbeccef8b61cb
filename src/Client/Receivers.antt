-- ===== src/Client/Receivers.antt =====
-- The receivers of the client's outbound tunnels over its connections, src/client.rs.
use rstun.Base.{
  ℕ, ◌≡◌, refl, ap, ◌∙◌, Bool, true, false, Option, none, some, List, [], ◌∷◌, ◌++◌, map, Result,
  ok, err, arith, if◌then◌else◌, ok-injective, All,
}
use rstun.Net.{SocketAddr}
use rstun.Net.Equality.{addr_eq_iff}
use rstun.TcpServer
use rstun.UdpServer
use rstun.Client.Serve.{
  get, insert, Servers, ServeError, receiver_taken, start_tcp_server, taken, get_or_init,
  get_or_init_tcp_receiver, with_tcp_server, found_tcp, serve_outbound_tcp, Race, closed_first,
  bind_failed, max_retries, binds_within, task_first, served_udp, after_wait, serve_outbound_udp,
  udp_connections,
}

get-insert :
    {V : Type 0} (a : SocketAddr) (v : V) (m : List (SocketAddr × V))
    → get a (insert a v m) ≡ some v
unfolding get insert
get-insert a v [] = ground (arith, addr_eq_iff a a)
get-insert a v ((b, w) ∷ m) = ground (arith, addr_eq_iff a a, addr_eq_iff b a, get-insert a v m)

-- The table holds a server and its receiver for the address.
pub record Holds (a : SocketAddr) (receiver : ℕ) (s : Servers) : Type 0 where
  pub server : TcpServer.State
  pub has_server : get a s.tcp_servers ≡ some server
  pub has_receiver : get a s.tcp_receivers ≡ some receiver

module _ (a : SocketAddr) (receiver : ℕ) where
  taken-Holds :
      (s : Servers) (r : Result TcpServer.TakeError ℕ × TcpServer.State)
      → (taken a s r).0 ≡ ok receiver
      → Holds a receiver (taken a s r).1
  unfolding taken
  taken-Holds s (ok q, server) h = record {
    server = server;
    has_server = get-insert a server s.tcp_servers;
    has_receiver = get-insert a q s.tcp_receivers ∙ ap some (ok-injective h);
  }
  taken-Holds s (err e, server) h = cc

  get_or_init-Holds :
      (o : Option ℕ) (server : TcpServer.State) (s : Servers)
      → get a s.tcp_servers ≡ some server
      → get a s.tcp_receivers ≡ o
      → (get_or_init o a server s).0 ≡ ok receiver
      → Holds a receiver (get_or_init o a server s).1
  unfolding get_or_init
  get_or_init-Holds (some q) server s hs hr h = record {
    server = server;
    has_server = hs;
    has_receiver = hr ∙ ap some (ok-injective h);
  }
  get_or_init-Holds none server s hs hr h = taken-Holds s (TcpServer.take_receiver server) h

  started-Holds :
      (t : Bool) (server : TcpServer.State) (s : Servers)
      → (with_tcp_server a (
          if t
          then (ok server, record s { tcp_servers = insert a server s.tcp_servers })
          else (err bind_failed, s))).0
        ≡ ok receiver
      → Holds a receiver
          (with_tcp_server a (
            if t
            then (ok server, record s { tcp_servers = insert a server s.tcp_servers })
            else (err bind_failed, s))).1
  unfolding with_tcp_server get_or_init_tcp_receiver
  started-Holds true server s h =
      get_or_init-Holds (get a s.tcp_receivers) server
        (record s { tcp_servers = insert a server s.tcp_servers })
        (get-insert a server s.tcp_servers) refl h
  started-Holds false server s h = cc

  found-Holds :
      (o : Option TcpServer.State) (attempts : List Bool) (channel : ℕ) (s : Servers)
      → get a s.tcp_servers ≡ o
      → (with_tcp_server a (found_tcp o a attempts channel s)).0 ≡ ok receiver
      → Holds a receiver (with_tcp_server a (found_tcp o a attempts channel s)).1
  unfolding found_tcp start_tcp_server with_tcp_server get_or_init_tcp_receiver
  found-Holds (some server) attempts channel s hs h =
      get_or_init-Holds (get a s.tcp_receivers) server s hs refl h
  found-Holds none attempts channel s hs h =
      started-Holds (binds_within max_retries attempts) (TcpServer.start a channel) s h

  Holds-serve :
      (attempts : List Bool) (channel : ℕ) (s : Servers)
      → Holds a receiver s
      → serve_outbound_tcp a attempts channel s ≡ (ok receiver, s)
  unfolding serve_outbound_tcp found_tcp with_tcp_server get_or_init_tcp_receiver get_or_init
  Holds-serve attempts channel s h =
      ap (λ o. with_tcp_server a (found_tcp o a attempts channel s)) h.has_server
      ∙ ap (λ o. get_or_init o a h.server s) h.has_receiver

  -- Once a connection of an outbound TCP tunnel was served, every later one, whatever binds then, is
  -- served from the same receiver, and the tables of servers and receivers stay as they are.
  pub serve_outbound_tcp_again :
      (attempts attempts' : List Bool) (channel channel' : ℕ) (s : Servers)
      → (serve_outbound_tcp a attempts channel s).0 ≡ ok receiver
      → serve_outbound_tcp a attempts' channel' (serve_outbound_tcp a attempts channel s).1
        ≡ (ok receiver, (serve_outbound_tcp a attempts channel s).1)
  unfolding serve_outbound_tcp
  serve_outbound_tcp_again attempts attempts' channel channel' s h =
      Holds-serve attempts' channel' (serve_outbound_tcp a attempts channel s).1
        (found-Holds (get a s.tcp_servers) attempts channel s refl h)

abbrev lost : UdpServer.State → UdpServer.State
lost s = record s { active = false; udp_receiver = none }

-- A connection, by what the server has.
with_receiver :
    (race : Race) (server : UdpServer.State) (o : Option ℕ)
    → server.udp_receiver ≡ o
    → serve_outbound_udp race server ≡ served_udp race (UdpServer.take_from o server)
unfolding serve_outbound_udp UdpServer.take_receiver
with_receiver race server o h = ap (λ o. served_udp race (UdpServer.take_from o server)) h

next : List Race → Result ServeError ℕ × UdpServer.State → List (Result ServeError ℕ)
next races r = r.0 ∷ udp_connections races r.1

without_receiver :
    (races : List Race) (server : UdpServer.State)
    → server.udp_receiver ≡ none
    → udp_connections races server ≡ map (λ r. err receiver_taken) races
unfolding udp_connections served_udp UdpServer.take_from next
without_receiver [] server h = refl
without_receiver (race ∷ races) server h =
    ap (next races) (with_receiver race server none h)
    ∙ ap (◌∷◌ (err receiver_taken)) (without_receiver races (lost server) refl)

-- Outbound UDP: as long as the tunnel's task is polled first at the end of a connection, every
-- connection is served from the server's receiver; from the first end that the outer wait sees
-- before the task, every later connection fails for want of the receiver.
pub udp_connections_lost :
    (before after : List Race) (server : UdpServer.State) (receiver : ℕ)
    → server.udp_receiver ≡ some receiver
    → All (λ r. r ≡ task_first) before
    → udp_connections (before ++ (closed_first ∷ after)) server
      ≡ map (λ r. ok receiver) before ++ (ok receiver ∷ map (λ r. err receiver_taken) after)
unfolding udp_connections served_udp after_wait UdpServer.take_from UdpServer.put_receiver next
udp_connections_lost [] after server receiver h all =
    ap (next after) (with_receiver closed_first server (some receiver) h)
    ∙ ap (◌∷◌ (ok receiver))
        (without_receiver after (record server { active = true; udp_receiver = none }) refl)
udp_connections_lost (race ∷ before) after server receiver h (e, all) =
    ap (λ r. next (before ++ (closed_first ∷ after)) (serve_outbound_udp r server)) e
    ∙ ap (next (before ++ (closed_first ∷ after)))
        (with_receiver task_first server (some receiver) h)
    ∙ ap (◌∷◌ (ok receiver)) (
        udp_connections_lost before after
          (UdpServer.put_receiver receiver (record server { active = true; udp_receiver = none }))
          receiver refl all)

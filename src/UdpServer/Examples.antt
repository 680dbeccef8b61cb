-- ===== src/UdpServer/Examples.antt =====
-- A socket at 127.0.0.1:9000, and its theorems at it.
use rstun.Base.{◌≡◌, refl, true, none, some, List, [], ◌∷◌, ◌++◌}
use rstun.Net.{SocketAddr, v4}
use rstun.UdpServer.{
  State, Event, UdpMessage, packet, quit, from_socket, from_channel, socket_failed, sent, timed_out,
}
use rstun.UdpServer.Packets.{run, collect, taken, given, seen, all_go_on, run-active}

abbrev local_addr : SocketAddr
local_addr = record { ip = v4 (127 ∷ 0 ∷ 0 ∷ 1 ∷ []); port = 9000 }

abbrev client_addr : SocketAddr
client_addr = record { ip = v4 (127 ∷ 0 ∷ 0 ∷ 1 ∷ []); port = 50000 }

abbrev reply : UdpMessage
reply = packet (record { payload = 9 ∷ []; local_addr = client_addr; peer_addr = none })

-- A packet each way, a failed receive, a full channel, and a quit before the last packet.
abbrev events : List Event
events =
    from_socket (1 ∷ 2 ∷ []) client_addr sent
    ∷ from_channel (some reply) true
    ∷ socket_failed
    ∷ from_socket (3 ∷ []) client_addr timed_out
    ∷ from_channel (some quit) true
    ∷ from_socket (4 ∷ []) client_addr sent
    ∷ []

abbrev held : State
held = record { addr = local_addr; active = true; udp_receiver = none }

one_out : collect given (seen events) ≡ (client_addr, 9 ∷ []) ∷ []
one_out = refl

run-active_example :
    let l = run held events (record { runs = true; queue = []; wire = [] }) in
    (l.queue ≡ [] ++ collect taken (seen events))
    × (l.wire ≡ [] ++ collect given (seen events))
    × (l.runs ≡ all_go_on events)
run-active_example = run-active held events [] [] refl

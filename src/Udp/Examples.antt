-- ===== src/Udp/Examples.antt =====
-- The UDP tunnel at concrete streams.
use rstun.Base.{ℕ, ◌++◌, map, ◌≡◌, refl, true, false, none, some, arith, List, [], ◌∷◌, All}
use rstun.Net.{IsAddr, v4, v6, SocketAddr, addr, Text}
use rstun.Io.{eof, reset}
use rstun.Message.Raw.{recv_datagrams}
use rstun.Udp.Accept.{Sockets, process, udp_to_quic, received, shutdown}
use rstun.Udp.Reached.{Serves}
use rstun.Udp.FarSide.{stream_of, process-stream_of, recv_datagrams-udp_to_quic}
use rstun.UdpServer.{UdpPacket}
use rstun.Udp.Ports.{
  get, insert, Ports, channel_local_addr_for_port, reserve_loop, reserve_channel_local_addr,
  channel_local_addr,
}
use rstun.Udp.Reserve.{Outcome, reserve_channel_local_addr-Outcome}
use rstun.Udp.Resolve.{Lookup, answered}
use rstun.Udp.Channel.{
  Frame, datagram, elsewhere, timed_out, ended, Ended, bridge_loop, process_channel_io,
  process_channel_io-Ended,
}
use rstun.Udp.Streams.{
  key_of, initial, opens, queued, Event, packet_in, stream_ends, start_serving, key_of_stream,
}
use rstun.Udp.OwnStream.{start_serving-own_stream}

-- Two entries before the wrap of the counter, and the entry of the first port after it.
abbrev near_wrap : Ports
near_wrap = record {
  next_local_port = 65535;
  reply_map = insert (channel_local_addr_for_port 65535 false) 7 [];
}

reserve_channel_local_addr-Outcome_example :
    Outcome 65535 false 9 near_wrap (reserve_channel_local_addr false 9 near_wrap)
reserve_channel_local_addr-Outcome_example =
    reserve_channel_local_addr-Outcome false 9 near_wrap (omega arith)

abbrev fresh_ports : Ports
fresh_ports = record { next_local_port = 1; reply_map = [] }

abbrev third_ports : Ports
third_ports = record {
  next_local_port = 3;
  reply_map =
      (channel_local_addr_for_port 2 true, 5) ∷ (channel_local_addr_for_port 1 false, 4) ∷ [];
}

abbrev reply : SocketAddr → List ℕ → UdpPacket
reply a payload = record { payload = payload; local_addr = a; peer_addr = none }

abbrev six : SocketAddr
six = record {
  ip = v6 (0 ∷ 0 ∷ 0 ∷ 0 ∷ 0 ∷ 0 ∷ 0 ∷ 0 ∷ 0 ∷ 0 ∷ 0 ∷ 0 ∷ 0 ∷ 0 ∷ 0 ∷ 1 ∷ []);
  port = 53;
}

abbrev four : SocketAddr
four = record { ip = v4 (10 ∷ 0 ∷ 0 ∷ 1 ∷ []); port = 53 }

abbrev both : Text → ℕ → Lookup
both host port = answered (six ∷ four ∷ [])

abbrev flow : List Frame
flow = datagram (1 ∷ []) ∷ elsewhere third_ports ∷ datagram (2 ∷ []) ∷ timed_out ∷ []

flow_ends : (process_channel_io (some (addr four)) none 4 fresh_ports flow).outcome ≡ ended
unfolding process_channel_io bridge_loop channel_local_addr reserve_channel_local_addr reserve_loop
    get insert
flow_ends = refl

process_channel_io-Ended_example :
    Ended (some (addr four)) flow (process_channel_io (some (addr four)) none 4 fresh_ports flow)
process_channel_io-Ended_example =
    process_channel_io-Ended (some (addr four)) none 4 fresh_ports flow flow_ends

-- The second packet opens a second stream once the first has ended.
abbrev events : List Event
events =
    packet_in (reply four (1 ∷ [])) opens queued
    ∷ stream_ends (key_of (reply four (1 ∷ [])))
    ∷ packet_in (reply six (2 ∷ [])) opens queued
    ∷ []

start_serving-own_stream_example :
    All
      (λ e. key_of_stream (e.0) (start_serving events initial).opened ≡ some (key_of (e.1)))
      (start_serving events initial).sent
start_serving-own_stream_example = start_serving-own_stream events

-- Empty datagrams are refused.
abbrev sockets : Sockets
sockets = record {
  binds = true;
  connects = λ a. true;
  takes = λ p. elim p [ [] ↦ false | b ∷ bs ↦ true ];
}

four-IsAddr : IsAddr four
four-IsAddr = ((refl, (omega arith, (omega arith, (omega arith, (omega arith, tt))))), omega arith)

process-stream_of_example :
    Serves both sockets ((1 ∷ []) ∷ [] ∷ (2 ∷ []) ∷ []) none (some (addr four)) (
      process both sockets none 3 (record {
        bytes = (stream_of (some (addr four)) ((1 ∷ []) ∷ [] ∷ (2 ∷ []) ∷ [])).written;
        after = reset;
      }))
process-stream_of_example =
    process-stream_of both sockets none (some (addr four)) ((1 ∷ []) ∷ [] ∷ (2 ∷ []) ∷ []) 3 reset
      four-IsAddr (omega arith, (omega arith, (omega arith, tt))) (omega arith)

recv_datagrams-udp_to_quic_example :
    recv_datagrams 2 1500 (record {
      bytes =
          (udp_to_quic
            (map received ((1 ∷ 2 ∷ []) ∷ (3 ∷ []) ∷ []) ++ (shutdown ∷ received (4 ∷ []) ∷ []))
            (record { written = []; broken = false })).written;
      after = eof;
    })
    ≡ (1 ∷ 2 ∷ []) ∷ (3 ∷ []) ∷ []
recv_datagrams-udp_to_quic_example =
    recv_datagrams-udp_to_quic ((1 ∷ 2 ∷ []) ∷ (3 ∷ []) ∷ []) (received (4 ∷ []) ∷ []) 2 eof
      (omega arith, (omega arith, tt)) (omega arith)

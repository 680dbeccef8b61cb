-- ===== src/UdpServer.antt =====
-- The local UDP socket of src/udp/udp_server.rs: its state behind the lock, and the loop that
-- carries packets between the socket and two channels.
pub mod Packets
mod Examples
use rstun.Base.{
  ℕ, Bool, true, false, Option, none, some, List, [], ◌∷◌, ◌++◌, if◌then◌else◌, Result, ok, err,
}
use rstun.Net.{SocketAddr, TunnelTarget}

-- `UdpPacket` and `UdpMessage`, of src/udp/mod.rs.
pub record UdpPacket : Type 0 where
  pub payload : List ℕ
  pub local_addr : SocketAddr
  pub peer_addr : Option TunnelTarget

pub data UdpMessage : Type 0 where
  packet : UdpPacket → UdpMessage
  quit : UdpMessage

pub record State : Type 0 where
  pub addr : SocketAddr
  pub active : Bool
  -- `udp_receiver`, by the number of its channel.
  pub udp_receiver : Option ℕ

pub data TakeError : Type 0 where
  already_taken : TakeError

-- `bind_and_start`, once the address is bound.
unfoldable pub start : SocketAddr → ℕ → State
start addr channel = record { addr = addr; active = false; udp_receiver = some channel }

unfoldable pub set_active : Bool → State → State
set_active active s = record s { active = active }

unfoldable pub take_from : Option ℕ → State → Result TakeError ℕ × State
take_from (some receiver) s = (ok receiver, record s { active = true; udp_receiver = none })
take_from none s = (err already_taken, record s { active = false; udp_receiver = none })

unfoldable pub take_receiver : State → Result TakeError ℕ × State
unfolding take_from
take_receiver s = take_from s.udp_receiver s

unfoldable pub put_receiver : ℕ → State → State
put_receiver receiver s = record s { active = false; udp_receiver = some receiver }

-- What the timed send into the outgoing channel does.
pub data Forwarded : Type 0 where
  sent timed_out closed : Forwarded

-- What the two branches of the `select!` give.
pub data Event : Type 0 where
  from_socket : List ℕ → SocketAddr → Forwarded → Event
  socket_failed : Event
  -- `in_udp_receiver.recv()`, and whether the socket takes the packet; `none` when all senders are gone.
  from_channel : Option UdpMessage → Bool → Event

-- The loop: whether it runs, what it put into the channel, and what it sent through the socket.
pub record Loop : Type 0 where
  pub runs : Bool
  pub queue : List UdpMessage
  pub wire : List (SocketAddr × List ℕ)

forward : UdpMessage → Forwarded → Loop → Loop
forward m sent l = record l { queue = l.queue ++ (m ∷ []) }
forward m timed_out l = l
forward m closed l = record l { runs = false }

send_out : Option UdpMessage → Bool → Loop → Loop
send_out (some (packet p)) works l =
    if works then record l { wire = l.wire ++ ((p.local_addr, p.payload) ∷ []) } else l
send_out (some quit) works l = record l { runs = false }
send_out none works l = record l { runs = false }

unfoldable pub handle : State → Event → Loop → Loop
unfolding forward send_out
handle s (from_socket bytes from f) l =
    if s.active
    then forward (packet (record { payload = bytes; local_addr = from; peer_addr = none })) f l
    else l
handle s socket_failed l = l
handle s (from_channel m works) l = send_out m works l

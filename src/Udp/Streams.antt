-- ===== src/Udp/Streams.antt =====
-- The sending side of a UDP tunnel: `start_serving` and `open_stream` of src/udp/udp_tunnel.rs.
-- A stream is the number of its packet channel, in the order of opening.
use rstun.Base.{
  ℕ, ◌+◌, ◌≡◌, refl, Bool, true, false, Option, none, some, List, [], ◌∷◌, ◌&&◌, not, ◌==◌, ◌↔◌,
  if◌then◌else◌, arith, ap,
}
use rstun.Net.{SocketAddr, TunnelTarget}
use rstun.Net.Equality.{addr_eq, addr_eq_iff, target_eq, target_eq_iff}
use rstun.UdpServer.{UdpPacket}

-- `UdpStreamKey`.
pub record StreamKey : Type 0 where
  pub local_addr : SocketAddr
  pub peer_addr : Option TunnelTarget

abbrev pub key_of : UdpPacket → StreamKey
key_of p = record { local_addr = p.local_addr; peer_addr = p.peer_addr }

unfoldable pub option_target_eq : Option TunnelTarget → Option TunnelTarget → Bool
option_target_eq none none = true
option_target_eq none (some t) = false
option_target_eq (some t) none = false
option_target_eq (some t) (some u) = target_eq t u

option_target_eq_iff : (a b : Option TunnelTarget) → (option_target_eq a b ≡ true) ↔ (a ≡ b)
unfolding option_target_eq
option_target_eq_iff none none = (λ h. refl, λ h. refl)
option_target_eq_iff none (some t) = (λ h. cc, λ h. cc)
option_target_eq_iff (some t) none = (λ h. cc, λ h. cc)
option_target_eq_iff (some t) (some u) =
    (λ h. ap some ((target_eq_iff t u).0 h), λ h. (target_eq_iff t u).1 (cc))

unfoldable pub key_eq : StreamKey → StreamKey → Bool
key_eq a b = addr_eq a.local_addr b.local_addr && option_target_eq a.peer_addr b.peer_addr

pub key_eq_iff : (a b : StreamKey) → (key_eq a b ≡ true) ↔ (a ≡ b)
unfolding key_eq
key_eq_iff a b = (
  λ h. ground (
    arith,
    (addr_eq_iff a.local_addr b.local_addr).0,
    (option_target_eq_iff a.peer_addr b.peer_addr).0,
    h,
  ),
  λ e. ground (
    arith,
    (addr_eq_iff a.local_addr b.local_addr).1,
    (option_target_eq_iff a.peer_addr b.peer_addr).1,
    e,
  ),
)

-- `DashMap<UdpStreamKey, Sender<UdpPacket>>`.
abbrev pub StreamMap : Type 0
StreamMap = List (StreamKey × ℕ)

unfoldable pub get : StreamKey → StreamMap → Option ℕ
get k [] = none
get k ((j, n) ∷ m) = if key_eq j k then some n else get k m

unfoldable pub remove : StreamKey → StreamMap → StreamMap
remove k [] = []
remove k ((j, n) ∷ m) = let rest = remove k m in if key_eq j k then rest else (j, n) ∷ rest

-- `sent` is what the writers of the streams were given, `opened` the streams with the key whose
-- target went out on them, both newest first.
pub record Serving : Type 0 where
  pub runs : Bool
  pub streams : StreamMap
  pub next_stream : ℕ
  pub opened : List (ℕ × StreamKey)
  pub sent : List (ℕ × UdpPacket)

abbrev pub initial : Serving
initial = record { runs = true; streams = []; next_stream = 0; opened = []; sent = [] }

-- Whether `open_bi` and the write of the target work; when not, whether the connection is closed.
pub data Opening : Type 0 where
  opens : Opening
  open_fails : Bool → Opening

-- `try_send`; a closed writer, and whether the connection is closed.
pub data Enqueue : Type 0 where
  queued full : Enqueue
  writer_closed : Bool → Enqueue

pub data Event : Type 0 where
  packet_in : UdpPacket → Opening → Enqueue → Event
  -- `Quit`, or no sender is left.
  no_more : Event
  -- The writer or the reader of a stream with the key is at its end.
  stream_ends : StreamKey → Event

stop : Serving → Serving
stop s = record s { runs = false }

unfoldable pub open_stream : StreamKey → Opening → Option ℕ → Serving → Option ℕ × Serving
open_stream k opening (some n) s = (some n, s)
open_stream k opens none s = (
  some s.next_stream,
  record s {
    streams = (k, s.next_stream) ∷ s.streams;
    next_stream = s.next_stream + 1;
    opened = (s.next_stream, k) ∷ s.opened;
  },
)
open_stream k (open_fails closed) none s = (none, record s { runs = s.runs && not closed })

unfoldable pub enqueue : UdpPacket → Enqueue → Option ℕ × Serving → Serving
unfolding stop
enqueue p queued (some n, s) = record s { sent = (n, p) ∷ s.sent }
enqueue p full (some n, s) = s
enqueue p (writer_closed true) (some n, s) = stop s
enqueue p (writer_closed false) (some n, s) = s
enqueue p e (none, s) = s

unfoldable pub step : Event → Serving → Serving
unfolding stop
step (packet_in p opening e) s =
    if s.runs then enqueue p e (open_stream (key_of p) opening (get (key_of p) s.streams) s) else s
step no_more s = stop s
step (stream_ends k) s = record s { streams = remove k s.streams }

unfoldable pub start_serving : List Event → Serving → Serving
start_serving [] s = s
start_serving (e ∷ events) s = start_serving events (step e s)

-- The key of a stream.
unfoldable pub key_of_stream : ℕ → List (ℕ × StreamKey) → Option StreamKey
key_of_stream n [] = none
key_of_stream n ((i, k) ∷ opened) = if i == n then some k else key_of_stream n opened

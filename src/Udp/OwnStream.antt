-- ===== src/Udp/OwnStream.antt =====
-- Streams of the sending side keep to their flow: `start_serving` of src/udp/udp_tunnel.rs.
use rstun.Base.{
  ℕ, ◌≤◌, ◌≡◌, refl, Bool, true, false, Option, none, some, List, [], ◌∷◌, if◌then◌else◌, arith,
  All, ==_iff,
}
use rstun.Udp.Streams.{
  StreamKey, key_of, key_eq, key_eq_iff, StreamMap, get, remove, Serving, initial, Opening, opens,
  open_fails, Enqueue, queued, full, writer_closed, Event, packet_in, no_more, stream_ends,
  open_stream, enqueue, step, start_serving, key_of_stream,
}
use rstun.UdpServer.{UdpPacket}

get-remove :
    (k j : StreamKey) (m : StreamMap) → get j (remove k m) ≡ (if key_eq k j then none else get j m)
unfolding get remove
get-remove k j [] = ground arith
get-remove k j ((i, n) ∷ m) =
    ground (arith, get-remove k j m, key_eq_iff i k, key_eq_iff i j, key_eq_iff k j)

-- Every stream of the map was opened with its key, the streams from `next_stream` on are not
-- opened, and all that was sent went to a stream of the datagram's own key.
pub record WellFormed (s : Serving) : Type 0 where
  pub mapped :
      (k : StreamKey) (n : ℕ) → get k s.streams ≡ some n → key_of_stream n s.opened ≡ some k
  pub fresh : (n : ℕ) → s.next_stream ≤ n → key_of_stream n s.opened ≡ none
  pub own_stream : All (λ e. key_of_stream (e.0) s.opened ≡ some (key_of (e.1))) s.sent

initial-WellFormed : WellFormed initial
unfolding get key_of_stream
initial-WellFormed = record { mapped = λ k n h. cc; fresh = λ n h. refl; own_stream = tt }

key_of_stream-older :
    (k : StreamKey) (next n : ℕ) (opened : List (ℕ × StreamKey)) (j : StreamKey)
    → key_of_stream next opened ≡ none
    → key_of_stream n opened ≡ some j
    → key_of_stream n ((next, k) ∷ opened) ≡ some j
unfolding key_of_stream
key_of_stream-older k next n opened j none_there h = ground (arith, none_there, h, ==_iff next n)

sent-older :
    (k : StreamKey) (next : ℕ) (opened : List (ℕ × StreamKey)) (sent : List (ℕ × UdpPacket))
    → key_of_stream next opened ≡ none
    → All (λ e. key_of_stream (e.0) opened ≡ some (key_of (e.1))) sent
    → All (λ e. key_of_stream (e.0) ((next, k) ∷ opened) ≡ some (key_of (e.1))) sent
sent-older k next opened [] n h = tt
sent-older k next opened ((i, p) ∷ sent) n h =
    (key_of_stream-older k next i opened (key_of p) n h.0, sent-older k next opened sent n h.1)

open_stream-WellFormed :
    (k : StreamKey) (opening : Opening) (o : Option ℕ) (s : Serving)
    → WellFormed s
    → WellFormed (open_stream k opening o s).1
unfolding open_stream get key_of_stream
open_stream-WellFormed k opening (some n) s w = w
open_stream-WellFormed k opens none s w = record {
  mapped = λ j n h. ground (
    arith,
    w.mapped j n,
    w.fresh s.next_stream,
    key_eq_iff k j,
    key_of_stream-older k s.next_stream n s.opened j,
    h,
  );
  fresh = λ n h. ground (arith, w.fresh n);
  own_stream =
      sent-older k s.next_stream s.opened s.sent (w.fresh s.next_stream (omega arith)) w.own_stream;
}
open_stream-WellFormed k (open_fails closed) none s w = record {
  mapped = w.mapped;
  fresh = w.fresh;
  own_stream = w.own_stream;
}

-- The stream that `open_stream` gives has the key.
Gives : StreamKey → Option ℕ × Serving → Type 0
Gives k (some n, s) = key_of_stream n s.opened ≡ some k
Gives k (none, s) = Unit

open_stream-Gives :
    (k : StreamKey) (opening : Opening) (o : Option ℕ) (s : Serving)
    → get k s.streams ≡ o
    → WellFormed s
    → Gives k (open_stream k opening o s)
unfolding open_stream Gives key_of_stream
open_stream-Gives k opening (some n) s e w = w.mapped k n e
open_stream-Gives k opens none s e w = ground arith
open_stream-Gives k (open_fails closed) none s e w = tt

enqueue-WellFormed :
    (p : UdpPacket) (e : Enqueue) (r : Option ℕ × Serving)
    → WellFormed r.1
    → Gives (key_of p) r
    → WellFormed (enqueue p e r)
unfolding enqueue Gives
enqueue-WellFormed p queued (some n, s) w g = record {
  mapped = w.mapped;
  fresh = w.fresh;
  own_stream = (g, w.own_stream);
}
enqueue-WellFormed p full (some n, s) w g = w
enqueue-WellFormed p (writer_closed true) (some n, s) w g = record {
  mapped = w.mapped;
  fresh = w.fresh;
  own_stream = w.own_stream;
}
enqueue-WellFormed p (writer_closed false) (some n, s) w g = w
enqueue-WellFormed p queued (none, s) w g = w
enqueue-WellFormed p full (none, s) w g = w
enqueue-WellFormed p (writer_closed b) (none, s) w g = w

step-WellFormed : (e : Event) (s : Serving) → WellFormed s → WellFormed (step e s)
unfolding step
step-WellFormed (packet_in p opening e) s w = by_runs s.runs (
    enqueue-WellFormed p e _ (open_stream-WellFormed (key_of p) opening _ s w)
      (open_stream-Gives (key_of p) opening _ s refl w))
  where
    by_runs : (b : Bool) {t : Serving} → WellFormed t → WellFormed (if b then t else s)
    by_runs true h = h
    by_runs false h = w
step-WellFormed no_more s w = record {
  mapped = w.mapped;
  fresh = w.fresh;
  own_stream = w.own_stream;
}
step-WellFormed (stream_ends k) s w = record {
  mapped = λ j n h. w.mapped j n (ground (arith, get-remove k j s.streams, h));
  fresh = w.fresh;
  own_stream = w.own_stream;
}

start_serving-WellFormed :
    (events : List Event) (s : Serving) → WellFormed s → WellFormed (start_serving events s)
unfolding start_serving
start_serving-WellFormed [] s w = w
start_serving-WellFormed (e ∷ events) s w =
    start_serving-WellFormed events (step e s) (step-WellFormed e s w)

-- From the empty stream map, whatever packets arrive, open attempts fail, writers close and streams
-- end: every packet that was handed to a stream was handed to one that was opened with the packet's
-- own local address and target.
pub start_serving-own_stream :
    (events : List Event)
    → All
        (λ e. key_of_stream (e.0) (start_serving events initial).opened ≡ some (key_of (e.1)))
        (start_serving events initial).sent
start_serving-own_stream events =
    (start_serving-WellFormed events initial initial-WellFormed).own_stream

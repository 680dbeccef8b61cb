-- ===== src/TcpTunnel/Requests.antt =====
-- What becomes of the requests over the connections: `start_serving` of src/tcp/tcp_tunnel.rs
-- under the `select!` of src/client.rs.
use rstun.Base.{
  ℕ, ◌+◌, ◌≡◌, refl, sym, ap, subst, ◌∙◌, Bool, true, false, Option, none, some, List, [], ◌∷◌,
  ◌++◌, append-nil, if◌then◌else◌, arith,
}
use rstun.TcpServer.{StreamRequest, StreamMessage, request, quit}
use rstun.TcpTunnel.{
  Opening, open_fails, dropped, opens, Event, closed, attempt, Serving, write_tunnel_target,
  serve_request, from_queue, take_request, round, start_serving, reconnect,
}
use rstun.TcpTunnel.Kept.{
  queued, pending, waiting, nothing, left, right, Keeps, Keeps-same, Keeps-trans, Keeps-within,
  Keeps-restarted, waiting-none,
}

-- How many requests an event can drop.
abbrev pub drops_one : Opening → ℕ
drops_one open_fails = 0
drops_one dropped = 1
drops_one (opens takes) = 0

served :
    (o : Opening) (r : StreamRequest) (s t : Serving)
    → s.pending_request ≡ none
    → t.flowing ≡ s.flowing
    → t.lost ≡ s.lost
    → waiting t ≡ r ∷ queued s.queue
    → Keeps (drops_one o) t (serve_request o r s)
unfolding serve_request
served open_fails r s t e f l w = Keeps-same t (serve_request open_fails r s) (sym f) (sym l) w
served dropped r s t e f l w = record {
  flowed = [];
  dropped = r ∷ [];
  taken = r ∷ [];
  flowing = sym f ∙ sym (append-nil t.flowing);
  lost = ap (λ l. l ++ r ∷ []) (sym l);
  each = right nothing;
  still_waiting = w ∙ ap (λ p. r ∷ (pending p ++ queued s.queue)) (sym e);
  few = omega arith;
}
served (opens takes) r s t e f l w = by_write (write_tunnel_target r takes)
  where
    by_write :
        (b : Bool)
        → Keeps 0 t (
            if b
            then record s { flowing = s.flowing ++ r ∷ [] }
            else record s { pending_request = some r })
    by_write true = record {
      flowed = r ∷ [];
      dropped = [];
      taken = r ∷ [];
      flowing = ap (λ l. l ++ r ∷ []) (sym f);
      lost = sym l ∙ sym (append-nil t.lost);
      each = left nothing;
      still_waiting = w ∙ ap (λ p. r ∷ (pending p ++ queued s.queue)) (sym e);
      few = omega arith;
    }
    by_write false = Keeps-same t (record s { pending_request = some r }) (sym f) (sym l) w

from_queue-Keeps :
    (o : Opening) (s : Serving) (queue : List StreamMessage)
    → s.queue ≡ queue
    → s.pending_request ≡ none
    → Keeps (drops_one o) s (from_queue queue o s)
unfolding from_queue
from_queue-Keeps open_fails s [] q e = Keeps-same s s refl refl refl
from_queue-Keeps (opens takes) s [] q e = Keeps-same s s refl refl refl
from_queue-Keeps dropped s [] q e =
    Keeps-within (omega arith) (Keeps-same s (record s { runs = false }) refl refl refl)
from_queue-Keeps o s (request r ∷ queue) q e =
    served o r (record s { queue = queue }) s e refl refl (waiting-none s (request r ∷ queue) q e)
from_queue-Keeps o s (quit ∷ queue) q e = Keeps-within (omega arith) (
    Keeps-same s (record s { queue = queue; runs = false }) refl refl
      (waiting-none s (quit ∷ queue) q e
        ∙ sym (waiting-none (record s { queue = queue; runs = false }) queue refl e)))

take_request-Keeps :
    (p : Option StreamRequest) (o : Opening) (s : Serving)
    → s.pending_request ≡ p
    → Keeps (drops_one o) s (take_request p o s)
unfolding take_request
take_request-Keeps (some r) o s e =
    served o r (record s { pending_request = none }) s refl refl refl
      (ap (λ p. pending p ++ queued s.queue) e)
take_request-Keeps none o s e = from_queue-Keeps o s s.queue refl e

pub stopped : (events : List Event) (s : Serving) → s.runs ≡ false → start_serving events s ≡ s
unfolding start_serving
stopped [] s e = refl
stopped (v ∷ events) s e = ap (λ b. if b then start_serving events (round v s) else s) e

from_queue-dropped :
    (queue : List StreamMessage) (s : Serving) → (from_queue queue dropped s).runs ≡ false
unfolding from_queue serve_request
from_queue-dropped [] s = refl
from_queue-dropped (request r ∷ queue) s = refl
from_queue-dropped (quit ∷ queue) s = refl

round-dropped : (p : Option StreamRequest) (s : Serving) → (take_request p dropped s).runs ≡ false
unfolding take_request serve_request
round-dropped (some r) s = refl
round-dropped none s = from_queue-dropped s.queue s

-- One where the connection closes with a request taken, for its first such event.
abbrev pub drops : List Event → ℕ
drops [] = 0
drops (closed ∷ events) = 0
drops (attempt open_fails ∷ events) = drops events
drops (attempt dropped ∷ events) = 1
drops (attempt (opens takes) ∷ events) = drops events

abbrev pub all_drops : List (List Event) → ℕ
all_drops [] = 0
all_drops (events ∷ connections) = drops events + all_drops connections

by_runs :
    (limit : ℕ) (b : Bool) (s t : Serving) → Keeps limit s t → Keeps limit s (if b then t else s)
by_runs limit true s t h = h
by_runs limit false s t h = Keeps-within (omega arith) (Keeps-same s s refl refl refl)

start_serving-Keeps :
    (events : List Event) (s : Serving) → Keeps (drops events) s (start_serving events s)
unfolding start_serving round
start_serving-Keeps [] s = Keeps-same s s refl refl refl
start_serving-Keeps (closed ∷ events) s =
    by_runs 0 s.runs s (start_serving events (record s { runs = false })) (
      subst (Keeps 0 s) (sym (stopped events (record s { runs = false }) refl))
        (Keeps-same s (record s { runs = false }) refl refl refl))
start_serving-Keeps (attempt dropped ∷ events) s =
    let t = take_request s.pending_request dropped s in
    by_runs 1 s.runs s (start_serving events t) (
      subst (Keeps 1 s) (sym (stopped events t (round-dropped s.pending_request s)))
        (take_request-Keeps s.pending_request dropped s refl))
start_serving-Keeps (attempt open_fails ∷ events) s =
    let t = take_request s.pending_request open_fails s in
    by_runs (drops events) s.runs s (start_serving events t) (
      Keeps-within (omega arith) (
        Keeps-trans (take_request-Keeps s.pending_request open_fails s refl)
          (start_serving-Keeps events t)))
start_serving-Keeps (attempt (opens takes) ∷ events) s =
    let t = take_request s.pending_request (opens takes) s in
    by_runs (drops events) s.runs s (start_serving events t) (
      Keeps-within (omega arith) (
        Keeps-trans (take_request-Keeps s.pending_request (opens takes) s refl)
          (start_serving-Keeps events t)))

-- Over any number of connections, with streams that open or fail, targets that are written or not,
-- and connections that close at any `await`: the requests that were pending or in the channel are
-- taken in their order, none is repeated or overtaken, and each that was taken flows, or was lost.
-- At most one is lost per connection, and only where the connection closed while the stream of a
-- taken request was opened or its target written.
pub reconnect-Keeps :
    (connections : List (List Event)) (s : Serving)
    → Keeps (all_drops connections) s (reconnect connections s)
unfolding reconnect
reconnect-Keeps [] s = Keeps-same s s refl refl refl
reconnect-Keeps (events ∷ connections) s =
    let first = start_serving-Keeps events (record s { runs = true }) in
    let rest = reconnect-Keeps connections (start_serving events (record s { runs = true })) in
    Keeps-trans (Keeps-restarted first) rest

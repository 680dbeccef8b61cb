-- ===== src/TcpTunnel/Kept.antt =====
-- How the requests that `start_serving` of src/tcp/tcp_tunnel.rs takes are accounted for: each flows,
-- or is counted as lost.
use rstun.Base.{
  ℕ, ◌+◌, ◌≤◌, ◌≡◌, sym, ap, ◌∙◌, true, Option, none, some, List, [], ◌∷◌, ◌++◌, append_assoc,
  append-nil, length, length-append, arith,
}
use rstun.TcpServer.{StreamRequest, StreamMessage, request, quit}
use rstun.TcpTunnel.{Serving}

abbrev pub queued : List StreamMessage → List StreamRequest
queued [] = []
queued (request r ∷ queue) = r ∷ queued queue
queued (quit ∷ queue) = queued queue

abbrev pub pending : Option StreamRequest → List StreamRequest
pending none = []
pending (some r) = r ∷ []

-- The request that is pending, and those in the channel.
abbrev pub waiting : Serving → List StreamRequest
waiting s = pending s.pending_request ++ queued s.queue

-- The third list has the elements of both others, each in its order.
pub data Merge : List StreamRequest → List StreamRequest → List StreamRequest → Type 0 where
  nothing : Merge [] [] []
  left :
      {r : StreamRequest} {xs ys zs : List StreamRequest}
      → Merge xs ys zs
      → Merge (r ∷ xs) ys (r ∷ zs)
  right :
      {r : StreamRequest} {xs ys zs : List StreamRequest}
      → Merge xs ys zs
      → Merge xs (r ∷ ys) (r ∷ zs)

Merge-append :
    {xs ys zs xs' ys' zs' : List StreamRequest}
    → Merge xs ys zs
    → Merge xs' ys' zs'
    → Merge (xs ++ xs') (ys ++ ys') (zs ++ zs')
Merge-append nothing n = n
Merge-append (left m) n = left (Merge-append m n)
Merge-append (right m) n = right (Merge-append m n)

-- From `s` to `s'` the first of the waiting requests were taken, and each of them flows or was lost,
-- at most `limit` were lost.
pub record Keeps (limit : ℕ) (s s' : Serving) : Type 0 where
  pub flowed : List StreamRequest
  pub dropped : List StreamRequest
  pub taken : List StreamRequest
  pub flowing : s'.flowing ≡ s.flowing ++ flowed
  pub lost : s'.lost ≡ s.lost ++ dropped
  pub each : Merge flowed dropped taken
  pub still_waiting : waiting s ≡ taken ++ waiting s'
  pub few : length dropped ≤ limit

-- Where nothing was taken.
pub Keeps-same :
    (s s' : Serving)
    → s'.flowing ≡ s.flowing
    → s'.lost ≡ s.lost
    → waiting s ≡ waiting s'
    → Keeps 0 s s'
Keeps-same s s' f l w = record {
  flowed = [];
  dropped = [];
  taken = [];
  flowing = f ∙ sym (append-nil s.flowing);
  lost = l ∙ sym (append-nil s.lost);
  each = nothing;
  still_waiting = w;
  few = omega arith;
}

pub Keeps-trans : {m n : ℕ} {s t u : Serving} → Keeps m s t → Keeps n t u → Keeps (m + n) s u
Keeps-trans {m} {n} {s} {t} {u} a b = record {
  flowed = a.flowed ++ b.flowed;
  dropped = a.dropped ++ b.dropped;
  taken = a.taken ++ b.taken;
  flowing =
      b.flowing ∙ ap (λ l. l ++ b.flowed) a.flowing ∙ append_assoc s.flowing a.flowed b.flowed;
  lost = b.lost ∙ ap (λ l. l ++ b.dropped) a.lost ∙ append_assoc s.lost a.dropped b.dropped;
  each = Merge-append a.each b.each;
  still_waiting =
      a.still_waiting
      ∙ ap (◌++◌ a.taken) b.still_waiting
      ∙ sym (append_assoc a.taken b.taken (waiting u));
  few = omega (arith, a.few, b.few, length-append a.dropped b.dropped);
}

pub Keeps-within : {m n : ℕ} {s s' : Serving} → m ≤ n → Keeps m s s' → Keeps n s s'
Keeps-within {m} {n} {s} {s'} le k = record {
  flowed = k.flowed;
  dropped = k.dropped;
  taken = k.taken;
  flowing = k.flowing;
  lost = k.lost;
  each = k.each;
  still_waiting = k.still_waiting;
  few = omega (arith, le, k.few);
}

pub Keeps-restarted :
    {limit : ℕ} {s s' : Serving} → Keeps limit (record s { runs = true }) s' → Keeps limit s s'
Keeps-restarted {limit} {s} {s'} k = record {
  flowed = k.flowed;
  dropped = k.dropped;
  taken = k.taken;
  flowing = k.flowing;
  lost = k.lost;
  each = k.each;
  still_waiting = k.still_waiting;
  few = k.few;
}

pub waiting-none :
    (s : Serving) (queue : List StreamMessage)
    → s.queue ≡ queue
    → s.pending_request ≡ none
    → waiting s ≡ queued queue
waiting-none s queue q e = ap (λ p. pending p ++ queued s.queue) e ∙ ap queued q

-- ===== src/TcpTunnel/HeldUp.antt =====
-- A request whose target cannot be written holds up the others: `start_serving` of
-- src/tcp/tcp_tunnel.rs.
use rstun.Base.{
  ◌≡◌, refl, sym, ap, subst, ◌∙◌, Bool, true, false, none, some, List, [], ◌∷◌, ◌++◌, if◌then◌else◌,
  err, arith,
}
use rstun.Target.{EncodeError, encode_tunnel_target}
use rstun.TcpServer.{StreamRequest}
use rstun.TcpTunnel.{
  Opening, open_fails, dropped, opens, Event, closed, attempt, Serving, write_tunnel_target,
  serve_request, take_request, round, start_serving, reconnect, target_written,
}
use rstun.TcpTunnel.Requests.{stopped, drops_one, drops, all_drops}

-- What stays when a request cannot be served.
pub record Held (r : StreamRequest) (s s' : Serving) : Type 0 where
  pub pending : s'.pending_request ≡ some r
  pub flowing : s'.flowing ≡ s.flowing
  pub queue : s'.queue ≡ s.queue
  pub lost : s'.lost ≡ s.lost

write-refused :
    (r : StreamRequest) (e : EncodeError) (takes : Bool)
    → encode_tunnel_target r.target false ≡ err e
    → write_tunnel_target r takes ≡ false
unfolding write_tunnel_target target_written
write-refused r e takes h = ap (λ t. target_written t takes) h

serve_request-Held :
    (o : Opening) (r : StreamRequest) (e : EncodeError) (s : Serving)
    → encode_tunnel_target r.target false ≡ err e
    → drops_one o ≡ 0
    → Held r s (serve_request o r (record s { pending_request = none }))
unfolding serve_request
serve_request-Held open_fails r e s h d = record {
  pending = refl;
  flowing = refl;
  queue = refl;
  lost = refl;
}
serve_request-Held dropped r e s h d = absurd (omega (arith, d))
serve_request-Held (opens takes) r e s h d =
    subst
      (λ b. Held r s (
        if b
        then record s { pending_request = none; flowing = s.flowing ++ r ∷ [] }
        else record s { pending_request = some r }))
      (sym (write-refused r e takes h))
      (record { pending = refl; flowing = refl; queue = refl; lost = refl })

take_request-Held :
    (o : Opening) (r : StreamRequest) (e : EncodeError) (s : Serving)
    → encode_tunnel_target r.target false ≡ err e
    → drops_one o ≡ 0
    → s.pending_request ≡ some r
    → Held r s (take_request s.pending_request o s)
unfolding take_request
take_request-Held o r e s h d q =
    subst (λ p. Held r s (take_request p o s)) (sym q) (serve_request-Held o r e s h d)

Held-later : (r : StreamRequest) (s s1 s2 : Serving) → Held r s s1 → Held r s1 s2 → Held r s s2
Held-later r s s1 s2 a b = record {
  pending = b.pending;
  flowing = b.flowing ∙ a.flowing;
  queue = b.queue ∙ a.queue;
  lost = b.lost ∙ a.lost;
}

by_runs-Held :
    (b : Bool) (r : StreamRequest) (s t : Serving)
    → s.pending_request ≡ some r
    → Held r s t
    → Held r s (if b then t else s)
by_runs-Held true r s t p h = h
by_runs-Held false r s t p h = record { pending = p; flowing = refl; queue = refl; lost = refl }

start_serving-Held :
    (events : List Event) (r : StreamRequest) (e : EncodeError) (s : Serving)
    → encode_tunnel_target r.target false ≡ err e
    → drops events ≡ 0
    → s.pending_request ≡ some r
    → Held r s (start_serving events s)
unfolding start_serving round
start_serving-Held [] r e s h d p = record {
  pending = p;
  flowing = refl;
  queue = refl;
  lost = refl;
}
start_serving-Held (closed ∷ events) r e s h d p =
    by_runs-Held s.runs r s (start_serving events (record s { runs = false })) p (
      subst (Held r s) (sym (stopped events (record s { runs = false }) refl))
        (record { pending = p; flowing = refl; queue = refl; lost = refl }))
start_serving-Held (attempt dropped ∷ events) r e s h d p = absurd (omega (arith, d))
start_serving-Held (attempt open_fails ∷ events) r e s h d p =
    let t = take_request s.pending_request open_fails s in
    let first = take_request-Held open_fails r e s h refl p in
    by_runs-Held s.runs r s (start_serving events t) p (
      Held-later r s t (start_serving events t) first
        (start_serving-Held events r e t h d first.pending))
start_serving-Held (attempt (opens takes) ∷ events) r e s h d p =
    let t = take_request s.pending_request (opens takes) s in
    let first = take_request-Held (opens takes) r e s h refl p in
    by_runs-Held s.runs r s (start_serving events t) p (
      Held-later r s t (start_serving events t) first
        (start_serving-Held events r e t h d first.pending))

-- When the pending request's target is one that the encoding refuses, then however many connections
-- and streams are opened, until a connection closes while a stream of it is being opened: no
-- stream flows, no message is taken from the channel, no request is lost, and this one stays pending.
pub reconnect-Held :
    (connections : List (List Event)) (r : StreamRequest) (e : EncodeError) (s : Serving)
    → encode_tunnel_target r.target false ≡ err e
    → all_drops connections ≡ 0
    → s.pending_request ≡ some r
    → Held r s (reconnect connections s)
unfolding reconnect
reconnect-Held [] r e s h d p = record { pending = p; flowing = refl; queue = refl; lost = refl }
reconnect-Held (events ∷ connections) r e s h d p =
    let restarted = record s { runs = true } in
    let first = start_serving-Held events r e restarted h (omega (arith, d)) p in
    let rest =
      reconnect-Held connections r e (start_serving events restarted) h (omega (arith, d))
        first.pending in
    record {
      pending = rest.pending;
      flowing = rest.flowing ∙ first.flowing;
      queue = rest.queue ∙ first.queue;
      lost = rest.lost ∙ first.lost;
    }

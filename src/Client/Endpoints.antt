-- ===== src/Client/Endpoints.antt =====
-- Which endpoint a connection attempt of src/client.rs uses, and what a failure leaves of it.
use rstun.Base.{
  ℕ, ◌≡◌, refl, sym, ap, subst, ◌∙◌, Bool, true, false, Option, none, some, [], if◌then◌else◌,
  Result, ok, err, ok-injective,
}
use rstun.Net.{SocketAddr}
use rstun.Client.Attempts.{OutcomeOf, login-outcome}
use rstun.Client.{
  Endpoint, State, should_quit, ClientError, Stages, Attempt, login, clear_cached_endpoint_if_idle,
  cached_endpoint, endpoint_for, connect_once, try_connect, after_attempt, login_on, same_family,
  kept_after, is_empty, has, is_stopping,
}

-- The endpoint a connection attempt uses, and the state once it is there.
abbrev chosen : SocketAddr → Option Endpoint → State → Result ClientError Endpoint × State
chosen remote created s = endpoint_for (cached_endpoint s.endpoint remote s) created

is_used :
    (remote : SocketAddr) (d e : Endpoint) (s s' : State)
    → same_family d.local_addr remote ≡ true
    → s.endpoint ≡ some d
    → ◌≡◌ {A = Result ClientError Endpoint × State} (ok d, s) (ok e, s')
    → (same_family e.local_addr remote ≡ true) × (s'.endpoint ≡ some e)
is_used remote d e s s' family cached h =
    let same : d ≡ e = ok-injective (ap (λ x. x.0) h) in
    (
      subst (λ x. same_family x.local_addr remote ≡ true) same family,
      sym (ap (λ x. x.1.endpoint) h) ∙ cached ∙ ap some same,
    )

clear-idle :
    (c : Endpoint) (s : State)
    → s.connections ≡ []
    → s.endpoint ≡ some c
    → clear_cached_endpoint_if_idle s ≡ (true, record s { endpoint = none })
unfolding clear_cached_endpoint_if_idle
clear-idle c s idle cached = rw (idle, cached)

family_by_cached :
    (remote : SocketAddr) (fresh e : Endpoint) (s s' : State) (o : Option Endpoint)
    → s.connections ≡ []
    → same_family fresh.local_addr remote ≡ true
    → s.endpoint ≡ o
    → endpoint_for (cached_endpoint o remote s) (some fresh) ≡ (ok e, s')
    → (same_family e.local_addr remote ≡ true) × (s'.endpoint ≡ some e)
unfolding endpoint_for cached_endpoint kept_after
family_by_cached remote fresh e s s' none idle family q h =
    is_used remote fresh e (record s { endpoint = some fresh }) s' family refl h
family_by_cached remote fresh e s s' (some c) idle family q h =
    by_family (same_family c.local_addr remote) refl h
  where
    by_family :
        (b : Bool)
        → same_family c.local_addr remote ≡ b
        → endpoint_for
            (if b then (some c, s) else kept_after (clear_cached_endpoint_if_idle s) c)
            (some fresh)
          ≡ (ok e, s')
        → (same_family e.local_addr remote ≡ true) × (s'.endpoint ≡ some e)
    by_family true f h = is_used remote c e s s' f q h
    by_family false f h =
        is_used remote fresh e (record s { endpoint = some fresh }) s' family refl
          (sym (ap (λ r. endpoint_for (kept_after r c) (some fresh)) (clear-idle c s idle q)) ∙ h)

-- While no connection is open, an attempt uses an endpoint of the family of the server's address,
-- if a new endpoint has that family, and the endpoint used is the one that is cached.
connect_once-family :
    (remote : SocketAddr) (fresh e : Endpoint) (s s' : State)
    → s.connections ≡ []
    → same_family fresh.local_addr remote ≡ true
    → chosen remote (some fresh) s ≡ (ok e, s')
    → (same_family e.local_addr remote ≡ true) × (s'.endpoint ≡ some e)
connect_once-family remote fresh e s s' idle family used =
    family_by_cached remote fresh e s s' s.endpoint idle family refl used

-- What an attempt does not touch.
abbrev Untouched : State → State → Type 0
Untouched s s' = (s'.connections ≡ s.connections) × (s'.client_state ≡ s.client_state)

by_if : {A : Type 0} (P : A → Type 0) (b : Bool) {x y : A} → P x → P y → P (if b then x else y)
by_if P true hx hy = hx
by_if P false hx hy = hy

clear-Untouched : (s : State) → Untouched s (clear_cached_endpoint_if_idle s).1
unfolding clear_cached_endpoint_if_idle
clear-Untouched s =
    by_if {A = Bool × State} (λ r. Untouched s r.1) (is_empty s.connections)
      {x = (has s.endpoint, record s { endpoint = none })} {y = (false, s)} (refl, refl)
      (refl, refl)

cached-Untouched :
    (o : Option Endpoint) (remote : SocketAddr) (s : State)
    → Untouched s (cached_endpoint o remote s).1
unfolding cached_endpoint kept_after
cached-Untouched none remote s = (refl, refl)
cached-Untouched (some e) remote s =
    by_if {A = Option Endpoint × State} (λ r. Untouched s r.1) (same_family e.local_addr remote)
      {x = (some e, s)} {y = kept_after (clear_cached_endpoint_if_idle s) e} (refl, refl)
      (clear-Untouched s)

made-Untouched :
    (o created : Option Endpoint) (s s1 : State)
    → Untouched s s1
    → Untouched s (endpoint_for (o, s1) created).1
unfolding endpoint_for
made-Untouched (some e) created s s1 h = h
made-Untouched none none s s1 h = h
made-Untouched none (some e) s s1 h = h

login-Untouched :
    (r : Result ClientError ℕ) (stages : Stages) (s : State) (a : Attempt)
    → OutcomeOf r stages s a
    → Untouched s a.state
login-Untouched (ok conn) stages s a h =
    (ap (λ x. x.connections) h.remembered, ap (λ x. x.client_state) h.remembered)
login-Untouched (err e) stages s a h =
    (ap (λ x. x.connections) h.unchanged, ap (λ x. x.client_state) h.unchanged)

login_on-Untouched :
    (r : Result ClientError Endpoint) (stages : Stages) (s s1 : State)
    → Untouched s s1
    → Untouched s (login_on (r, s1) stages).state
unfolding login_on
login_on-Untouched (err e) stages s s1 h = h
login_on-Untouched (ok e) stages s s1 h =
    let l =
      login-Untouched (login stages s1).result stages s1 (login stages s1)
        (login-outcome stages s1) in
    (l.0 ∙ h.0, l.1 ∙ h.1)

try_connect-Untouched :
    (remote : Option SocketAddr) (created : Option Endpoint) (stages : Stages) (s : State)
    → Untouched s (try_connect remote created stages s).state
unfolding try_connect
try_connect-Untouched none created stages s = (refl, refl)
try_connect-Untouched (some remote) created stages s =
    let c = cached_endpoint s.endpoint remote s in
    login_on-Untouched (endpoint_for c created).0 stages s (endpoint_for c created).1
      (made-Untouched c.0 created s c.1 (cached-Untouched s.endpoint remote s))

after_attempt-fails :
    (r : Result ClientError ℕ) (x : ClientError) (a : Attempt)
    → a.result ≡ r
    → (after_attempt r a).result ≡ err x
    → a.state.connections ≡ []
    → should_quit a.state ≡ false
    → (after_attempt r a).state.endpoint ≡ none
unfolding after_attempt clear_cached_endpoint_if_idle
after_attempt-fails (ok conn) x a e h idle runs = cc
after_attempt-fails (err y) x a e h idle runs = rw (runs, idle)

-- When an attempt fails for whatever reason, while no connection is open and the client is not
-- stopping, no endpoint stays cached, so that the next attempt binds a new socket.
connect_once-fails :
    (remote : Option SocketAddr) (created : Option Endpoint) (stages : Stages) (s : State)
    (x : ClientError)
    → s.connections ≡ []
    → should_quit s ≡ false
    → (connect_once remote created stages s).result ≡ err x
    → (connect_once remote created stages s).state.endpoint ≡ none
unfolding connect_once should_quit
connect_once-fails remote created stages s x idle runs h =
    let a = try_connect remote created stages s in
    let same = try_connect-Untouched remote created stages s in
    after_attempt-fails a.result x a refl h (same.0 ∙ idle) (ap is_stopping same.1 ∙ runs)

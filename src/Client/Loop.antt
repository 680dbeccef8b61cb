-- ===== src/Client/Loop.antt =====
-- The loop of one tunnel: `connect_and_serve` of src/client.rs, as a machine whose steps are the
-- ends of its attempts and of its tunnel task, with `stop` as a step of another thread.
use rstun.Base.{ℕ, ◌≡◌, refl, Bool, true, false, not, List, [], ◌∷◌, retain, ◌==◌, arith}
use rstun.Events.{TunnelState, reconnecting}
use rstun.Client.{ClientState, idle, terminated, is_stopping}

pub data Phase : Type 0 where
  attempting : Phase
  serving : ℕ → Phase
  finished : Phase

pub record Tunnel : Type 0 where
  pub phase : Phase
  pub connections : List ℕ
  pub client_state : ClientState
  -- The states the loop posts itself, newest first.
  pub posted : List TunnelState

abbrev pub at_start : Tunnel
at_start = record { phase = attempting; connections = []; client_state = idle; posted = [] }

pub data Step : Type 0 where
  attempt_fails : Step
  attempt_connects : ℕ → Step
  tunnel_task_ends : Step
  stop_called : Step

abbrev remove : ℕ → List ℕ → List ℕ
remove conn conns = retain (λ c. not (c == conn)) conns

-- The retry goes on unless the client stops; then its error ends the loop.
after_failure : Bool → Tunnel → Tunnel
after_failure true t = record t { phase = finished }
after_failure false t = t

after_connect : Bool → ℕ → Tunnel → Tunnel
after_connect true conn t = record t { phase = finished }
after_connect false conn t = record t {
  phase = serving conn;
  connections = conn ∷ remove conn t.connections;
}

after_tunnel : Bool → ℕ → Tunnel → Tunnel
after_tunnel true conn t = record t { phase = finished; connections = remove conn t.connections }
after_tunnel false conn t = record t {
  phase = attempting;
  connections = remove conn t.connections;
  posted = reconnecting ∷ t.posted;
}

own_step : Phase → Step → Tunnel → Tunnel
unfolding after_failure after_connect after_tunnel
own_step attempting attempt_fails t = after_failure (is_stopping t.client_state) t
own_step attempting (attempt_connects conn) t = after_connect (is_stopping t.client_state) conn t
own_step (serving conn) tunnel_task_ends t = after_tunnel (is_stopping t.client_state) conn t
own_step attempting tunnel_task_ends t = t
own_step (serving conn) attempt_fails t = t
own_step (serving conn) (attempt_connects c) t = t
own_step finished attempt_fails t = t
own_step finished (attempt_connects c) t = t
own_step finished tunnel_task_ends t = t
own_step phase stop_called t = record t { connections = []; client_state = terminated }

unfoldable pub step : Step → Tunnel → Tunnel
unfolding own_step
step e t = own_step t.phase e t

unfoldable pub connect_and_serve : List Step → Tunnel → Tunnel
connect_and_serve [] t = t
connect_and_serve (e ∷ steps) t = connect_and_serve steps (step e t)

-- The steps that end what the loop waits for.
abbrev pub Ends : Phase → Step → Type 0
Ends attempting attempt_fails = Unit
Ends attempting (attempt_connects conn) = Unit
Ends attempting tunnel_task_ends = ⊥
Ends attempting stop_called = ⊥
Ends (serving conn) tunnel_task_ends = Unit
Ends (serving conn) attempt_fails = ⊥
Ends (serving conn) (attempt_connects c) = ⊥
Ends (serving conn) stop_called = ⊥
Ends finished e = Unit

own_step-after_stop :
    (phase : Phase) (e : Step) (t : Tunnel)
    → t.phase ≡ phase
    → is_stopping t.client_state ≡ true
    → Ends phase e
    → ((own_step phase e t).phase ≡ finished) × ((own_step phase e t).posted ≡ t.posted)
unfolding own_step after_failure after_connect after_tunnel
own_step-after_stop attempting attempt_fails t p s h = ground (arith, s)
own_step-after_stop attempting (attempt_connects c) t p s h = ground (arith, s)
own_step-after_stop attempting tunnel_task_ends t p s h = absurd h
own_step-after_stop attempting stop_called t p s h = absurd h
own_step-after_stop (serving conn) tunnel_task_ends t p s h = ground (arith, s)
own_step-after_stop (serving conn) attempt_fails t p s h = absurd h
own_step-after_stop (serving conn) (attempt_connects c) t p s h = absurd h
own_step-after_stop (serving conn) stop_called t p s h = absurd h
own_step-after_stop finished attempt_fails t p s h = (p, refl)
own_step-after_stop finished (attempt_connects c) t p s h = (p, refl)
own_step-after_stop finished tunnel_task_ends t p s h = (p, refl)
own_step-after_stop finished stop_called t p s h = (p, refl)

-- Once stop was called, the end of the attempt or of the tunnel task that the loop is in ends the
-- loop, and the tunnel is not posted as reconnecting.
connect_and_serve-after_stop :
    (t : Tunnel) (e : Step)
    → Ends t.phase e
    → ((connect_and_serve (stop_called ∷ e ∷ []) t).phase ≡ finished)
      × ((connect_and_serve (stop_called ∷ e ∷ []) t).posted ≡ t.posted)
unfolding connect_and_serve step own_step
connect_and_serve-after_stop t e h =
    own_step-after_stop t.phase e (record t { connections = []; client_state = terminated }) refl
      refl h

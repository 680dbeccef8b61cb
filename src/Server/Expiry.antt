-- ===== src/Server/Expiry.antt =====
-- The removal of expired sessions: `clear_expired_sessions` of src/server.rs.
use rstun.Base.{ℕ, ◌≡◌, Bool, true, false, List, [], ◌∷◌, ◌++◌, retain, map}
use rstun.Net.{UpstreamType, tcp, udp}
use rstun.Server.Sessions.{Session, State, clear_expired_sessions}

-- The open connections of a list, in order.
pub data Left (closed : ℕ → Bool) : List ℕ → List ℕ → Type 0 where
  nothing : Left closed [] []
  goes :
      {c : ℕ} {conns left : List ℕ}
      → closed c ≡ true
      → Left closed conns left
      → Left closed (c ∷ conns) left
  stays :
      {c : ℕ} {conns left : List ℕ}
      → closed c ≡ false
      → Left closed conns left
      → Left closed (c ∷ conns) (c ∷ left)

-- The sessions of a list that stay, and the `Quit` of each that expired, to its own sender and marked
-- with the kind of the tunnel.
pub data Cleared (closed : ℕ → Bool) (u : UpstreamType)
    : List Session → List (UpstreamType × ℕ) → List Session → Type 0 where
  nothing : Cleared closed u [] [] []
  expires :
      {e : Session} {sessions left : List Session} {quits : List (UpstreamType × ℕ)}
      → closed e.conn ≡ true
      → Cleared closed u sessions quits left
      → Cleared closed u (e ∷ sessions) ((u, e.sender) ∷ quits) left
  stays :
      {e : Session} {sessions left : List Session} {quits : List (UpstreamType × ℕ)}
      → closed e.conn ≡ false
      → Cleared closed u sessions quits left
      → Cleared closed u (e ∷ sessions) quits (e ∷ left)

-- What holds once the sessions are cleared.
pub record Expired (closed : ℕ → Bool) (s : State) (quits : List (UpstreamType × ℕ)) (s' : State)
    : Type 0 where
  pub connections_left : Left closed s.connections s'.connections
  pub udp_quits : List (UpstreamType × ℕ)
  pub tcp_quits : List (UpstreamType × ℕ)
  pub udp_cleared : Cleared closed udp s.udp_sessions udp_quits s'.udp_sessions
  pub tcp_cleared : Cleared closed tcp s.tcp_sessions tcp_quits s'.tcp_sessions
  pub all_quits : quits ≡ udp_quits ++ tcp_quits
  pub once : clear_expired_sessions closed s' ≡ ([], s')

abbrev quits_of : (ℕ → Bool) → UpstreamType → List Session → List (UpstreamType × ℕ)
quits_of closed u sessions = map (λ e. (u, e.sender)) (retain (λ e. closed e.conn) sessions)

-- ===== src/TcpServer/Accept.antt =====
-- What the accept loop puts into its channel: src/tcp/tcp_server.rs.
use rstun.Base.{
  ℕ, ◌≡◌, refl, true, false, none, some, List, [], ◌∷◌, ◌++◌, arith, append_assoc, append-nil, err,
}
use rstun.TcpServer.{
  State, StreamMessage, request, Loop, Accepted, connection, accept_failed, sent, timed_out, closed,
  accept, take_receiver, already_taken,
}

-- The rounds of the loop, while it runs, in one state of the listener.
abbrev pub accept_all : State → List Accepted → Loop → Loop
accept_all s [] l = l
accept_all s (a ∷ more) l = elim l.runs [ true ↦ accept_all s more (accept s a l) | false ↦ l ]

-- The requests of the connections that were accepted and sent on before the channel closed.
abbrev pub requests : List Accepted → List StreamMessage
requests [] = []
requests (accept_failed ∷ more) = requests more
requests (connection i sent ∷ more) = request (record { stream = i; target = none }) ∷ requests more
requests (connection i timed_out ∷ more) = requests more
requests (connection i closed ∷ more) = []

-- An active listener puts the connections that it can send on into its channel, in order, and
-- survives failed accepts and full channels; it stops at a closed channel only.
accept_all-active :
    (s : State) (evs : List Accepted) (q : List StreamMessage)
    → s.terminated ≡ false
    → s.active ≡ true
    → (accept_all s evs (record { runs = true; queue = q })).queue ≡ q ++ requests evs
unfolding accept
accept_all-active s [] q t a = rw append-nil
accept_all-active s (accept_failed ∷ more) q t a = accept_all-active s more q t a
accept_all-active s (connection i sent ∷ more) q t a = ground (
  arith,
  accept_all-active s more (q ++ (request (record { stream = i; target = none }) ∷ [])) t a,
  append_assoc q (request (record { stream = i; target = none }) ∷ []) (requests more),
)
accept_all-active s (connection i timed_out ∷ more) q t a =
    ground (arith, accept_all-active s more q t a)
accept_all-active s (connection i closed ∷ []) q t a = ground (arith, append-nil q)
accept_all-active s (connection i closed ∷ (b ∷ more)) q t a = ground (arith, append-nil q)

-- An inactive listener that is not terminated drops every connection and goes on.
accept_all-inactive :
    (s : State) (evs : List Accepted) (l : Loop)
    → s.terminated ≡ false
    → s.active ≡ false
    → accept_all s evs l ≡ l
unfolding accept
accept_all-inactive s [] l t a = refl
accept_all-inactive s (accept_failed ∷ more) l t a =
    ground (arith, accept_all-inactive s more l t a)
accept_all-inactive s (connection i f ∷ more) l t a =
    ground (arith, accept_all-inactive s more l t a)

-- After a second taking has failed, the listener drops every further connection, although the
-- receiver of the first taking is still being read.
accept_all_after_failed_take :
    (s : State) (receiver : ℕ) (evs : List Accepted) (l : Loop)
    → s.tcp_receiver ≡ some receiver
    → s.terminated ≡ false
    → let s1 = (take_receiver s).1 in
      let s2 = (take_receiver s1).1 in
      ((take_receiver s1).0 ≡ err already_taken) × (accept_all s2 evs l ≡ l)
unfolding take_receiver
accept_all_after_failed_take s receiver evs l h t = (
  ground arith,
  accept_all-inactive (take_receiver (take_receiver s).1).1 evs l (ground arith) (ground arith),
)

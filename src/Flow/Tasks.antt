-- ===== src/Flow/Tasks.antt =====
-- The two tasks of `start_flowing` in src/util/stream_util.rs and the two oneshot channels by which
-- each tells the other that its loop is left. A task that ends drops its halves of the streams.
use rstun.Base.{◌≡◌, Bool, true, false, not, ◌&&◌, ◌||◌, ◌⊎◌}
use rstun.Flow.{Ending, flowing, broke, waits_for_other}

-- `waiting`: timed out, its signal sent, at the `await` of the other's. `closed`: ended by the end of
-- the stream or by an error. `released`: ended by the other's signal, after a timeout.
pub data Phase : Type 0 where
  copying waiting closed released : Phase

-- Where each task is, and whether its loop was left by a timeout.
pub record Tasks : Type 0 where
  pub q2s : Phase
  pub s2q : Phase
  pub q2s_timed_out : Bool
  pub s2q_timed_out : Bool

abbrev tasks : Phase → Phase → Bool → Bool → Tasks
tasks p q a b = record { q2s = p; s2q = q; q2s_timed_out = a; s2q_timed_out = b }

-- Both tasks are spawned.
abbrev pub spawned : Tasks
spawned = tasks copying copying false false

abbrev by_timeout : Ending → Bool
by_timeout flowing = false
by_timeout broke = false
by_timeout waits_for_other = true

-- What an iteration of a loop leaves.
unfoldable pub leave : Ending → Phase
leave flowing = copying
leave broke = closed
leave waits_for_other = waiting

-- The receiver of a task's signal resolves: the signal was sent, and the sender is dropped with
-- the task.
unfoldable pub signalled : Phase → Bool
signalled copying = false
signalled waiting = true
signalled closed = true
signalled released = true

-- The tasks run in any order: an iteration of either loop, or the `await` of either task.
pub data Step : Tasks → Tasks → Type 0 where
  q2s_reads :
      (e : Ending) (p : Phase) (a b : Bool)
      → Step (tasks copying p a b) (tasks (leave e) p (by_timeout e) b)
  s2q_reads :
      (e : Ending) (p : Phase) (a b : Bool)
      → Step (tasks p copying a b) (tasks p (leave e) a (by_timeout e))
  q2s_wakes :
      (p : Phase) (a b : Bool)
      → signalled p ≡ true
      → Step (tasks waiting p a b) (tasks released p a b)
  s2q_wakes :
      (p : Phase) (a b : Bool)
      → signalled p ≡ true
      → Step (tasks p waiting a b) (tasks p released a b)

pub data Steps : Tasks → Tasks → Type 0 where
  done : {t : Tasks} → Steps t t
  then : {t u v : Tasks} → Step t u → Steps u v → Steps t v

abbrev pub is_over : Phase → Bool
is_over copying = false
is_over waiting = false
is_over closed = true
is_over released = true

-- A direction whose loop was left by a timeout is over only when the other has left its loop.
pub held : Tasks → Bool
unfolding signalled
held t =
    (not (t.q2s_timed_out && is_over t.q2s) || signalled t.s2q)
    && (not (t.s2q_timed_out && is_over t.s2q) || signalled t.q2s)

-- A direction still copies, or the tasks can end by what is there.
pub Ends : Tasks → Type 0
Ends t =
    (signalled t.q2s && signalled t.s2q ≡ false)
    ⊎ ((u : Tasks) × Steps t u × (is_over u.q2s && is_over u.s2q ≡ true))

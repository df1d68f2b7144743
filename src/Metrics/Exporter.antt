-- ===== src/Metrics/Exporter.antt =====
-- src/metrics.rs, `serve`: the loop of the exporter, with the tasks that answer the requests. A
-- connection is known by a number.
pub mod Pool
use oxiduct.Base.{ℕ, zero, suc, ◌+◌, List, [], ◌∷◌, Option, none, some, get_elem?, remove_at}

abbrev pub max_inflight : ℕ
max_inflight = 16

-- In the `select!`; in the pause after a failed accept; or returned.
pub data Stage : Type 0 where
  accepting backing_off returned : Stage

-- The permits that the semaphore has left; the connections whose tasks run; those that were
-- dropped; and those whose tasks have ended, answered or not.
pub record State : Type 0 where
  pub permits : ℕ
  pub running : List ℕ
  pub dropped : List ℕ
  pub ended : List ℕ
  pub stage : Stage

abbrev pub start : State
start = record { permits = max_inflight; running = []; dropped = []; ended = []; stage = accepting }

-- The loop sees the stop, a connection, a failed accept or the end of its pause; or the running
-- task at an index ends: its request is answered, fails, or times out.
pub data Event : Type 0 where
  stops accept_fails pause_ends : Event
  accepts ends : ℕ → Event

-- `try_acquire_owned`: without a permit the connection is dropped.
unfoldable pub admit : State → ℕ → ℕ → State
admit s zero conn = record s { dropped = conn ∷ s.dropped }
admit s (suc left) conn = record s { permits = left; running = conn ∷ s.running }

-- The permit goes back to the semaphore.
unfoldable pub end_task : State → ℕ → Option ℕ → State
end_task s i none = s
end_task s i (some conn) = record s {
  permits = s.permits + 1;
  running = remove_at i s.running;
  ended = conn ∷ s.ended;
}

-- What the loop does, by its stage; a returned loop leaves its tasks to themselves.
unfoldable pub on_event : State → Stage → Event → State
unfolding admit end_task
on_event s stage (ends i) = end_task s i (get_elem? s.running i)
on_event s accepting stops = record s { stage = returned }
on_event s accepting (accepts conn) = admit s s.permits conn
on_event s accepting accept_fails = record s { stage = backing_off }
on_event s backing_off pause_ends = record s { stage = accepting }
on_event s stage e = s

unfoldable pub run : State → List Event → State
unfolding on_event
run s [] = s
run s (e ∷ es) = run (on_event s s.stage e) es

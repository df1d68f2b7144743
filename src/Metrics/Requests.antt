-- ===== src/Metrics/Requests.antt =====
-- src/metrics.rs: the loop of `serve` with the requests that its tasks answer, in any interleaving.
pub mod Release
mod Tests
use oxiduct.Base.{
  ℕ, zero, suc, Bool, true, false, List, [], ◌∷◌, Option, none, some, get_elem?, remove_at, map,
}
use oxiduct.Metrics.Exporter
use oxiduct.Metrics.Exporter.{accepting}
use oxiduct.Metrics.Handler
use oxiduct.Metrics.Handler.{Wake, over}

-- The loop, and the requests in the order of its running tasks.
pub record State : Type 0 where
  pub exporter : Exporter.State
  pub requests : List Handler.State

abbrev pub start : State
start = record { exporter = Exporter.start; requests = [] }

pub data Event : Type 0 where
  -- A connection, known by a number, at a time; a wake of a task; its end.
  accepts : (conn now : ℕ) → Event
  wakes : ℕ → Wake → Event
  ends : ℕ → Event
  -- The other events of the loop.
  stops accept_fails pause_ends : Event

-- Whether the loop spawns a task for a connection.
abbrev pub takes_up : Exporter.Stage → (permits : ℕ) → Bool
takes_up accepting (suc left) = true
takes_up stage permits = false

abbrev pub spawned : Bool → ℕ → List Handler.State → List Handler.State
spawned true now hs = Handler.start now ∷ hs
spawned false now hs = hs

abbrev pub on_loop : State → Exporter.Event → State
on_loop s e = record s { exporter = Exporter.on_event s.exporter s.exporter.stage e }

unfoldable pub wake_at : (ℕ → List ℕ) → ℕ → Wake → List Handler.State → List Handler.State
wake_at render i w [] = []
wake_at render zero w (h ∷ hs) = Handler.wake render h w ∷ hs
wake_at render (suc i) w (h ∷ hs) = h ∷ wake_at render i w hs

-- A task ends once its request is over, however it ended.
unfoldable pub end_task : State → ℕ → Handler.Stage → State
end_task s i (over o) = record (on_loop s (Exporter.ends i)) { requests = remove_at i s.requests }
end_task s i stage = s

abbrev pub end_at : State → ℕ → Option Handler.State → State
end_at s i none = s
end_at s i (some h) = end_task s i h.stage

unfoldable pub step : (ℕ → List ℕ) → State → Event → State
unfolding wake_at end_task
step render s (accepts conn now) = record (on_loop s (Exporter.accepts conn)) {
  requests = spawned (takes_up s.exporter.stage s.exporter.permits) now s.requests;
}
step render s (wakes i w) = record s { requests = wake_at render i w s.requests }
step render s (ends i) = end_at s i (get_elem? s.requests i)
step render s stops = on_loop s Exporter.stops
step render s accept_fails = on_loop s Exporter.accept_fails
step render s pause_ends = on_loop s Exporter.pause_ends

unfoldable pub run : (ℕ → List ℕ) → State → List Event → State
unfolding step
run render s [] = s
run render s (e ∷ es) = run render (step render s e) es

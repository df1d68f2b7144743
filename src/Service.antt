-- ===== src/Service.antt =====
-- src/main.rs with src/proxy and src/metrics.rs: the whole program, main and the tasks that it has
-- spawned, under the two tokens that they share.
mod Moves
pub mod Nodes
pub mod Shutdown
mod Tests
use oxiduct.Base.{
  ℕ, zero, suc, Bool, true, false, ◌&&◌, List, [], ◌∷◌, Option, none, some, map, if◌then◌else◌,
  get_elem?, remove_at,
}
use oxiduct.Text.{Text}
use oxiduct.Config.{Protocol, ProxyConfig, tcp}
use oxiduct.Proxy.Tcp.Serve
use oxiduct.Proxy.Udp
use oxiduct.Proxy.Udp.Steps
use oxiduct.Proxy.Dispatch.{Listener, tcp_listener, udp_listener, run_graceful}
use oxiduct.Metrics.Exporter
use oxiduct.Main
use oxiduct.Main.{Task, Finished, succeeded, failed, panicked, Phase, exited}

-- A spawned task: an address that could not be bound, or a loop in its state.
pub data Node : Type 0 where
  unbound : Node
  exporting : Exporter.State → Node
  proxying : ProxyConfig → Listener → Node

abbrev pub bound : ProxyConfig → Option Listener → Node
bound cfg none = unbound
bound cfg (some l) = proxying cfg l

-- `metrics::serve` and `proxy::run_graceful` up to their loops.
abbrev pub spawn : (binds : Protocol → Text → Bool) → Task → Node
spawn binds (Task.exporter addr) = if binds tcp addr then exporting Exporter.start else unbound
spawn binds (Task.proxy cfg) = bound cfg (run_graceful cfg binds 0).1

pub record State : Type 0 where
  pub main : Main.State
  pub nodes : List Node
  -- The tasks that have ended, with what they gave.
  pub past : List (Node × Finished)

unfoldable pub start : (binds : Protocol → Text → Bool) → List Task → State
start binds ts = record { main = Main.start ts; nodes = map (spawn binds) ts; past = [] }

pub data Step : Type 0 where
  tcp_step : Serve.Event → Step
  udp_step : Steps.Event → Step
  exporter_step : Exporter.Event → Step

pub data Event : Type 0 where
  -- A loop moves; a task ends.
  moves : ℕ → Step → Event
  ends : ℕ → Finished → Event
  -- The moves of main.
  joins : ℕ → Event
  none_left signal grace_elapses : Event

-- A loop sees a token only once main has cancelled it.
unfoldable pub is_seen : Main.State → Step → Bool
is_seen m (tcp_step Serve.stops) = m.stop_accepting
is_seen m (udp_step Steps.stops) = m.stop_accepting
is_seen m (udp_step Steps.shuts_down) = m.force_shutdown
is_seen m (exporter_step Exporter.stops) = m.stop_accepting
is_seen m e = true

unfoldable pub node_step : Node → Step → Node
node_step (proxying cfg (tcp_listener s)) (tcp_step e) =
    proxying cfg (tcp_listener (Serve.step s e))
node_step (proxying cfg (udp_listener s)) (udp_step e) =
    proxying cfg (udp_listener (Steps.step cfg.idle_timeout_secs s e))
node_step (exporting s) (exporter_step e) = exporting (Exporter.on_event s s.stage e)
node_step n e = n

abbrev pub tcp_returned : Serve.Stage → Bool
tcp_returned Serve.returned = true
tcp_returned stage = false

abbrev pub udp_left : Udp.Listener → Bool
udp_left Udp.drained = true
udp_left Udp.shut = true
udp_left l = false

abbrev pub exporter_returned : Exporter.Stage → Bool
exporter_returned Exporter.returned = true
exporter_returned stage = false

abbrev pub has_returned : Node → Bool
has_returned unbound = false
has_returned (exporting s) = exporter_returned s.stage
has_returned (proxying cfg (tcp_listener s)) = tcp_returned s.stage
has_returned (proxying cfg (udp_listener s)) = udp_left s.listener

abbrev pub is_unbound : Node → Bool
is_unbound unbound = true
is_unbound n = false

-- How a task may end: a loop returns no error, so that only the bind gives one.
unfoldable pub gives : Node → Finished → Bool
gives n succeeded = has_returned n
gives n failed = is_unbound n
gives n panicked = true

unfoldable pub update_at : ℕ → Node → List Node → List Node
update_at i n [] = []
update_at zero n (m ∷ ns) = n ∷ ns
update_at (suc i) n (m ∷ ns) = m ∷ update_at i n ns

-- A step of main alone.
abbrev pub main_step : State → Main.Event → State
main_step s e = record s { main = Main.on_event s.main s.main.phase e }

unfoldable pub move : State → ℕ → Step → Option Node → State
unfolding is_seen
move s i e none = s
move s i e (some n) =
    if is_seen s.main e then record s { nodes = update_at i (node_step n e) s.nodes } else s

unfoldable pub end_task : State → ℕ → Finished → Option Node → State
unfolding gives
end_task s i f none = s
end_task s i f (some n) =
    if gives n f
    then record (main_step s (Main.ends i f)) {
      nodes = remove_at i s.nodes;
      past = (n, f) ∷ s.past;
    }
    else s

-- The exit of main ends every task.
unfoldable pub on_event : State → Phase → Event → State
unfolding move end_task
on_event s (exited code) e = s
on_event s phase (moves i e) = move s i e (get_elem? s.nodes i)
on_event s phase (ends i f) = end_task s i f (get_elem? s.nodes i)
on_event s phase (joins i) = main_step s (Main.joins i)
on_event s phase none_left = main_step s Main.none_left
on_event s phase signal = main_step s Main.signal
on_event s phase grace_elapses = main_step s Main.grace_elapses

unfoldable pub run : State → List Event → State
unfolding on_event
run s [] = s
run s (e ∷ es) = run (on_event s s.main.phase e) es

-- ===== src/Proxy/Tcp/Active.antt =====
-- src/proxy/tcp.rs: the accept loop with its connection tasks, each of which makes the calls of its
-- `handle` one by one, in any interleaving.
pub mod Sums
pub mod Tasks
pub mod Invariant
pub mod Gauge
mod Tests
use oxiduct.Base.{
  ℕ, zero, suc, Bool, true, false, List, [], ◌∷◌, Option, none, some, if◌then◌else◌, ltb, length,
  get_elem?, remove_at,
}
use oxiduct.Net.{SocketAddr}
use oxiduct.Config.{ProxyConfig}
use oxiduct.Proxy.Tcp.Serve
use oxiduct.Proxy.Tcp.Handle.{Network, Effect, Handled, handle}

-- A connection task: the calls that its `handle` has still to make, and whether it then returns.
pub record Connection : Type 0 where
  pub todo : List Effect
  pub over : Bool

-- The listener, its connections in the order of its running tasks, and the calls made so far, the
-- latest first.
pub record State : Type 0 where
  pub serve : Serve.State
  pub connections : List Connection
  pub made : List Effect

unfoldable pub start : ProxyConfig → ℕ → State
start cfg next_id = record { serve = Serve.start cfg next_id; connections = []; made = [] }

pub data Event : Type 0 where
  -- A connection, with what the network will do to it; the next call of a task; its end.
  accepts : SocketAddr → Network → Event
  calls ends : ℕ → Event
  -- The other events of the listener.
  stops accept_fails pause_ends returns : Event
  joins : ℕ → Event

unfoldable pub set_at : ℕ → Connection → List Connection → List Connection
set_at i c [] = []
set_at zero c (d ∷ cs) = c ∷ cs
set_at (suc i) c (d ∷ cs) = d ∷ set_at i c cs

abbrev pub fresh : Handled → Connection
fresh h = record { todo = h.effects; over = h.over }

-- A connection that the listener has taken up gets a task.
abbrev pub spawned : State → Serve.State → Handled → Bool → State
spawned s next h true = record s { serve = next; connections = fresh h ∷ s.connections }
spawned s next h false = record s { serve = next }

unfoldable pub accept : ProxyConfig → State → SocketAddr → Network → State
accept cfg s peer net =
    let next = Serve.step s.serve (Serve.accepts peer) in
    spawned s next (handle cfg peer net) (ltb (length s.serve.running) (length next.running))

unfoldable pub call : State → ℕ → Bool → List Effect → State
call s i over [] = s
call s i over (e ∷ es) = record s {
  connections = set_at i (record { todo = es; over = over }) s.connections;
  made = e ∷ s.made;
}

abbrev pub call_at : State → ℕ → Option Connection → State
call_at s i none = s
call_at s i (some c) = call s i c.over c.todo

-- A task ends once its `handle` has made its last call and returned.
unfoldable pub end_task : State → ℕ → Bool → List Effect → State
end_task s i true [] = record s {
  serve = Serve.step s.serve (Serve.ends i);
  connections = remove_at i s.connections;
}
end_task s i over todo = s

abbrev pub end_at : State → ℕ → Option Connection → State
end_at s i none = s
end_at s i (some c) = end_task s i c.over c.todo

abbrev pub loop : State → Serve.Event → State
loop s e = record s { serve = Serve.step s.serve e }

unfoldable pub step : ProxyConfig → State → Event → State
unfolding accept call end_task set_at
step cfg s (accepts peer net) = accept cfg s peer net
step cfg s (calls i) = call_at s i (get_elem? s.connections i)
step cfg s (ends i) = end_at s i (get_elem? s.connections i)
step cfg s stops = loop s Serve.stops
step cfg s accept_fails = loop s Serve.accept_fails
step cfg s pause_ends = loop s Serve.pause_ends
step cfg s returns = loop s Serve.returns
step cfg s (joins i) = loop s (Serve.joins i)

unfoldable pub run : ProxyConfig → State → List Event → State
unfolding step
run cfg s [] = s
run cfg s (e ∷ es) = run cfg (step cfg s e) es

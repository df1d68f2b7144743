-- ===== src/Proxy/Tcp/Serve.antt =====
-- src/proxy/tcp.rs, `serve_graceful`: the accept loop with its connection tasks.
pub mod Slots
pub mod Joined
pub mod Tests
use oxiduct.Base.{
  ℕ, ◌+◌, ◌%◌, Bool, true, false, List, [], ◌∷◌, Option, none, some, get_elem?, remove_at,
}
use oxiduct.Base.Words.{u64_mod}
use oxiduct.Net.{SocketAddr}
use oxiduct.Limits
use oxiduct.Limits.{ConnLimits, Guard, Reject, Admission, admitted, rejected, try_acquire}
use oxiduct.Config.{ProxyConfig}

-- A task that runs `handle`, with the guard that it holds.
pub record Task : Type 0 where
  pub id : ℕ
  pub peer : SocketAddr
  pub guard : Guard

-- Where the listener is: before its `select!`; in the pause after a failed accept; past the loop,
-- joining; or returned.
pub data Stage : Type 0 where
  accepting backing_off joining returned : Stage

pub data Metric : Type 0 where
  total : Metric
  refused : Reject → Metric

-- The join set is the tasks that run and, by their ids, those that have ended and are not yet
-- joined. `next_id` is the counter that all proxies share.
pub record State : Type 0 where
  pub limits : ConnLimits
  pub running : List Task
  pub ended : List ℕ
  pub stage : Stage
  pub next_id : ℕ
  pub metrics : List Metric

unfoldable pub start : ProxyConfig → ℕ → State
start cfg next_id = record {
  limits = Limits.new cfg.max_connections cfg.max_per_ip;
  running = [];
  ended = [];
  stage = accepting;
  next_id = next_id;
  metrics = [];
}

pub data Event : Type 0 where
  -- The listener: the stop, a connection, a failed accept, the end of its pause, a joined task, and
  -- the empty join set after the loop.
  stops : Event
  accepts : SocketAddr → Event
  accept_fails pause_ends : Event
  joins : ℕ → Event
  returns : Event
  -- A running task comes to its end, or panics; its guard is dropped.
  ends : ℕ → Event

-- The answer of the limiter: a rejected connection is dropped, an admitted one gets a task.
abbrev pub decide : State → SocketAddr → ConnLimits × Admission → State
decide s peer (l, rejected r) = record s { limits = l; metrics = refused r ∷ s.metrics }
decide s peer (l, admitted guard warnings) = record s {
  limits = l;
  running = record { id = s.next_id; peer = peer; guard = guard } ∷ s.running;
  next_id = (s.next_id + 1) % u64_mod;
  metrics = total ∷ s.metrics;
}

unfoldable pub accept : State → Stage → SocketAddr → State
accept s accepting peer = decide s peer (try_acquire s.limits peer.ip)
accept s stage peer = s

abbrev pub when : Stage → Stage → State → State → State
when accepting accepting next s = next
when backing_off backing_off next s = next
when joining joining next s = next
when stage other next s = s

-- `join_next` in the loop and after it.
abbrev pub join : State → Stage → ℕ → State
join s accepting i = record s { ended = remove_at i s.ended }
join s joining i = record s { ended = remove_at i s.ended }
join s stage i = s

-- After the loop, `join_next` gives none once no task is left.
abbrev pub return_if_empty : State → Stage → List Task → List ℕ → State
return_if_empty s joining [] [] = record s { stage = returned }
return_if_empty s stage tasks ids = s

abbrev pub end_task : State → ℕ → Option Task → State
end_task s i none = s
end_task s i (some t) = record s {
  limits = Limits.drop s.limits t.guard;
  running = remove_at i s.running;
  ended = t.id ∷ s.ended;
}

unfoldable pub step : State → Event → State
unfolding accept
step s stops = when accepting s.stage (record s { stage = joining }) s
step s (accepts peer) = accept s s.stage peer
step s accept_fails = when accepting s.stage (record s { stage = backing_off }) s
step s pause_ends = when backing_off s.stage (record s { stage = accepting }) s
step s (joins i) = join s s.stage i
step s returns = return_if_empty s s.stage s.running s.ended
step s (ends i) = end_task s i (get_elem? s.running i)

unfoldable pub run : State → List Event → State
unfolding step
run s [] = s
run s (e ∷ es) = run (step s e) es

-- ===== src/Proxy/Udp/Steps.antt =====
-- src/proxy/udp.rs: the setup tasks, the relay tasks, and the events of all tasks as one step
-- function. An event whose task is not at that point changes nothing.
use oxiduct.Base.{
  ℕ, zero, suc, Bool, true, false, List, [], ◌∷◌, Option, none, some, ◌==◌, if◌then◌else◌, length,
  get_elem?, remove_at, min, ltb,
}
use oxiduct.Base.Map.{insert, forget}
use oxiduct.Base.Words.{saturating_add, saturating_sub, saturating_mul}
use oxiduct.Net.{SocketAddr, SocketAddr-discrete}
use oxiduct.Limits
use oxiduct.Limits.{ConnLimits}
use oxiduct.Proxy.Udp.{
  Packet, Session, Listener, Phase, opening, opened, checked, ending, Setup, State, serving,
  missing, draining_tick, drained, total, active, session_of, try_send, touch, cancel, fast_path,
  admit, force, cleanup,
}

-- What a setup task does next, at its place in the list of tasks.
pub data Move : Type 0 where
  -- `open_session` returns a session, at a time, or fails.
  opens : (now : ℕ) → Move
  fails : Move
  -- The test of the forced shutdown, and the first packet; the insertion; the pending mark's drop.
  tests inserts ends : Move

pub data Event : Type 0 where
  -- The listener: a packet, the pending mark and the limiter, the stop, the two tests of a drain
  -- tick, and the forced shutdown.
  packet : (now : ℕ) → SocketAddr → Packet → Event
  marks stops ticks_sessions ticks_pending forces : Event
  -- The token of the forced shutdown is cancelled.
  shuts_down : Event
  setup : ℕ → Move → Event
  -- The relay tasks of a session, by its id: a packet sent upstream, one sent to the client, the end.
  sends receives : (id now : ℕ) → Event
  dies : (id : ℕ) → Event
  cleans : (now : ℕ) → Event

unfoldable pub set_phase : ℕ → Phase → List Setup → List Setup
set_phase i p [] = []
set_phase zero p (t ∷ ts) = record t { phase = p } ∷ ts
set_phase (suc i) p (t ∷ ts) = t ∷ set_phase i p ts

abbrev pub at_phase : State → ℕ → Phase → State
at_phase s i p = record s { setups = set_phase i p s.setups }

-- `map.insert` drops the session that stood there, if any.
abbrev pub replaced : ConnLimits → Option Session → ConnLimits
replaced l none = l
replaced l (some old) = Limits.drop l old.slot

abbrev pub insert_session : State → SocketAddr → Session → State
insert_session s src se =
    let sessions' = insert SocketAddr-discrete src se s.sessions in
    record s {
      sessions = sessions';
      limits = replaced s.limits (session_of src s.sessions);
      metrics = active (length sessions') ∷ total ∷ s.metrics;
    }

unfoldable pub advance : State → ℕ → SocketAddr → Packet → Phase → Move → State
advance s i src first (opening slot) (opens now) =
    record (at_phase s i (
      opened (record {
        id = s.next_id;
        tx = [];
        last_activity = now;
        cancelled = false;
        slot = slot;
      }))) { next_id = suc s.next_id }
advance s i src first (opening slot) fails = record (at_phase s i ending) {
  limits = Limits.drop s.limits slot;
}
advance s i src first (opened se) tests =
    if s.forced
    then record (at_phase s i ending) { limits = Limits.drop s.limits se.slot }
    else at_phase s i (checked (try_send first se))
advance s i src first (checked se) inserts = at_phase (insert_session s src se) i ending
advance s i src first ending ends = record s {
  pending = forget SocketAddr-discrete src s.pending;
  setups = remove_at i s.setups;
}
advance s i src first p m = s

abbrev pub advance_at : State → ℕ → Option Setup → Move → State
advance_at s i none m = s
advance_at s i (some t) m = advance s i t.src t.first t.phase m

abbrev pub when_id : ℕ → (Session → Session) → Session → Session
when_id id f se = if se.id == id then f se else se

abbrev pub in_phase : (Session → Session) → Phase → Phase
in_phase f (opening slot) = opening slot
in_phase f (opened se) = opened (f se)
in_phase f (checked se) = checked (f se)
in_phase f ending = ending

unfoldable pub update_sessions :
    (Session → Session) → List (SocketAddr × Session) → List (SocketAddr × Session)
update_sessions f [] = []
update_sessions f ((src, se) ∷ m) = (src, f se) ∷ update_sessions f m

unfoldable pub update_setups : (Session → Session) → List Setup → List Setup
update_setups f [] = []
update_setups f (t ∷ ts) = record t { phase = in_phase f t.phase } ∷ update_setups f ts

-- The session with an id changes wherever it is: in the map, or still with its setup task.
abbrev pub update : ℕ → (Session → Session) → State → State
update id f s = record s {
  sessions = update_sessions (when_id id f) s.sessions;
  setups = update_setups (when_id id f) s.setups;
}

-- A queued packet leaves the channel.
abbrev pub dequeue : List Packet → List Packet
dequeue [] = []
dequeue (p ∷ ps) = ps

-- The relay tasks: a packet taken from the channel and sent upstream, one sent to the client.
abbrev pub sent_up : ℕ → Session → Session
sent_up now se = record (touch now se) { tx = dequeue se.tx }

abbrev pub sent_down : ℕ → Session → Session
sent_down now se = touch now se

-- A step of the listener from its `select`.
abbrev pub when_serving : Listener → State → State → State
when_serving serving next s = next
when_serving l next s = s

abbrev pub mark : State → Listener → State
mark s (missing src p) = admit s src p
mark s l = s

-- The second test of a drain tick.
abbrev pub tick_pending : State → Listener → State
tick_pending s (draining_tick true) =
    if length s.pending == 0
    then record s { listener = drained }
    else record s { listener = serving }
tick_pending s (draining_tick false) = record s { listener = serving }
tick_pending s l = s

unfoldable pub step : ℕ → State → Event → State
unfolding admit
step idle_secs s (packet now src p) =
    when_serving s.listener (fast_path s now src p (session_of src s.sessions)) s
step idle_secs s marks = mark s s.listener
step idle_secs s stops = when_serving s.listener (record s { draining = true }) s
step idle_secs s ticks_sessions =
    when_serving s.listener
      (if s.draining then record s { listener = draining_tick (length s.sessions == 0) } else s) s
step idle_secs s ticks_pending = tick_pending s s.listener
step idle_secs s forces = when_serving s.listener (if s.forced then force s else s) s
step idle_secs s shuts_down = record s { forced = true }
step idle_secs s (setup i m) = advance_at s i (get_elem? s.setups i) m
step idle_secs s (sends id now) = update id (sent_up now) s
step idle_secs s (receives id now) = update id (sent_down now) s
step idle_secs s (dies id) = update id cancel s
step idle_secs s (cleans now) = cleanup idle_secs now s

unfoldable pub run : ℕ → State → List Event → State
unfolding step
run idle_secs s [] = s
run idle_secs s (e ∷ es) = run idle_secs (step idle_secs s e) es

-- How long the cleanup task sleeps.
unfoldable pub least : ℕ → (ℕ → ℕ) → List (SocketAddr × Session) → ℕ
least bound until [] = bound
least bound until ((src, se) ∷ m) = min (until se.last_activity) (least bound until m)

unfoldable pub any_cancelled : List (SocketAddr × Session) → Bool
any_cancelled [] = false
any_cancelled ((src, se) ∷ m) = if se.cancelled then true else any_cancelled m

-- The time to the idle deadline of a session, by its last activity.
abbrev pub until_idle : ℕ → ℕ → ℕ → ℕ
until_idle idle_secs now last =
    saturating_sub (saturating_add last (saturating_mul idle_secs 1000)) now

unfoldable pub cleanup_wait : ℕ → ℕ → List (SocketAddr × Session) → ℕ
cleanup_wait idle_secs now m =
    if any_cancelled m
    then 0
    else if ltb 0 idle_secs
    then min (least 5000 (until_idle idle_secs now) m) 5000
    else 5000

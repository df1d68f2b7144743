-- ===== src/Proxy/Udp.antt =====
-- src/proxy/udp.rs: the sessions of a UDP listener. The listener, the setup tasks, the relay tasks
-- and the cleanup task share one state; each event is a piece of one task under one lock.
pub mod Open
pub mod Steps
pub mod Guards
pub mod Slots
pub mod Caps
pub mod Histories
pub mod Setups
pub mod Drain
pub mod Replacement
pub mod Insertions
pub mod Accounts
pub mod Balance
pub mod Cleanup
pub mod Relay
mod Tests
use mathlib.Core.List.{lookup}
use oxiduct.Base.{
  ℕ, zero, suc, ◌+◌, ◌-◌, Bool, true, false, ◌&&◌, List, [], ◌∷◌, ◌++◌, map, Option, none, some,
  min, ltb, leb, ◌==◌, if◌then◌else◌, length, get_elem?, remove_at, drop,
}
use oxiduct.Base.Map.{insert, remove, contains, forget}
use oxiduct.Base.Words.{saturating_add, saturating_sub, saturating_mul}
use oxiduct.Net.{SocketAddr, SocketAddr-discrete}
use oxiduct.Limits
use oxiduct.Limits.{ConnLimits, Guard, Reject, Admission, admitted, rejected, try_acquire}
use oxiduct.Config.{ProxyConfig}

abbrev pub Packet : Type 0
Packet = List ℕ

-- The id stands for the shared clock cell and cancellation token, which the relay tasks also hold.
pub record Session : Type 0 where
  pub id : ℕ
  pub tx : List Packet
  pub last_activity : ℕ
  pub cancelled : Bool
  pub slot : Guard

-- How far a setup task is: in `open_session`; with the session opened; past the test of the forced
-- shutdown; or at its end, with only its pending mark left.
pub data Phase : Type 0 where
  opening : Guard → Phase
  opened checked : Session → Phase
  ending : Phase

-- A setup task. It holds the pending mark of its source.
pub record Setup : Type 0 where
  pub src : SocketAddr
  pub first : Packet
  pub phase : Phase

-- Where the listener is: before its `select`; between the lookup of a source and its pending mark;
-- between the two tests of a drain tick, with the result of the first; or left.
pub data Listener : Type 0 where
  serving : Listener
  missing : SocketAddr → Packet → Listener
  draining_tick : (no_sessions : Bool) → Listener
  drained shut : Listener

pub data Close : Type 0 where
  idle_timeout error shutdown : Close

-- The calls of the metrics, the latest first in a log.
pub data Metric : Type 0 where
  closed : Close → (by : ℕ) → Metric
  refused : Reject → Metric
  total : Metric
  active : ℕ → Metric

pub record State : Type 0 where
  pub sessions : List (SocketAddr × Session)
  pub pending : List SocketAddr
  pub setups : List Setup
  pub limits : ConnLimits
  pub listener : Listener
  pub draining : Bool
  pub forced : Bool
  pub next_id : ℕ
  pub metrics : List Metric

unfoldable pub start : ProxyConfig → State
start cfg = record {
  sessions = [];
  pending = [];
  setups = [];
  limits = Limits.new cfg.max_connections cfg.max_per_ip;
  listener = serving;
  draining = false;
  forced = false;
  next_id = 0;
  metrics = [];
}

abbrev pub session_of : SocketAddr → List (SocketAddr × Session) → Option Session
session_of = lookup SocketAddr-discrete

-- `try_send` on the channel of 256 packets: a packet that finds it full is lost.
abbrev pub try_send : Packet → Session → Session
try_send packet se = if ltb (length se.tx) 256 then record se { tx = se.tx ++ packet ∷ [] } else se

abbrev pub touch : ℕ → Session → Session
touch now se = record se { last_activity = now }

abbrev pub cancel : Session → Session
cancel se = record se { cancelled = true }

-- `continue` for a draining listener, else on to the pending mark.
abbrev pub slow_path : State → SocketAddr → Packet → State
slow_path s src packet = if s.draining then s else record s { listener = missing src packet }

-- The removal of a dead session, whose drop gives its slot back.
abbrev pub evict : State → SocketAddr → Session → State
evict s src se =
    let rest = remove SocketAddr-discrete src s.sessions in
    record s {
      sessions = rest;
      limits = Limits.drop s.limits se.slot;
      metrics = active (length rest) ∷ closed error 1 ∷ s.metrics;
    }

-- The critical section on the sessions, by what it finds there.
unfoldable pub fast_path : State → ℕ → SocketAddr → Packet → Option Session → State
fast_path s now src packet none = slow_path s src packet
fast_path s now src packet (some se) =
    if se.cancelled then slow_path (evict s src se) src packet else record s {
      sessions = insert SocketAddr-discrete src (try_send packet (touch now se)) s.sessions;
    }

-- The answer of the limiter: a rejection drops the pending mark at once, an admission spawns the
-- setup task.
abbrev pub decide : State → SocketAddr → Packet → ConnLimits × Admission → State
decide s src packet (l, rejected r) = record s {
  limits = l;
  listener = serving;
  metrics = refused r ∷ s.metrics;
}
decide s src packet (l, admitted slot warnings) = record s {
  limits = l;
  listener = serving;
  pending = src ∷ s.pending;
  setups = record { src = src; first = packet; phase = opening slot } ∷ s.setups;
}

unfoldable pub admit : State → SocketAddr → Packet → State
admit s src packet =
    if contains SocketAddr-discrete src s.pending
    then record s { listener = serving }
    else decide s src packet (try_acquire s.limits src.ip)

unfoldable pub cancel_all : List (SocketAddr × Session) → List (SocketAddr × Session)
cancel_all [] = []
cancel_all ((src, se) ∷ m) = (src, cancel se) ∷ cancel_all m

abbrev pub force : State → State
force s = record s {
  sessions = cancel_all s.sessions;
  listener = shut;
  metrics = active 0 ∷ closed shutdown (length s.sessions) ∷ s.metrics;
}

unfoldable pub is_stale : ℕ → ℕ → Session → Bool
is_stale idle_secs now se =
    ltb 0 idle_secs && leb (saturating_mul idle_secs 1000) (saturating_sub now se.last_activity)

-- Why the cleanup task evicts a session, if it does.
unfoldable pub verdict : ℕ → ℕ → Session → Option Close
unfolding is_stale
verdict idle_secs now se =
    if se.cancelled
    then some error
    else if is_stale idle_secs now se
    then some idle_timeout
    else none

-- `retain` of the cleanup task: the limiter after the slots of the evicted sessions, their close
-- reasons, and the sessions that stay.
pub record Kept : Type 0 where
  pub sessions : List (SocketAddr × Session)
  pub limits : ConnLimits
  pub metrics : List Metric

unfoldable pub retain : ℕ → ℕ → ConnLimits → List Metric → List (SocketAddr × Session) → Kept
unfolding verdict
retain idle_secs now l log [] = record { sessions = []; limits = l; metrics = log }
retain idle_secs now l log ((src, se) ∷ m) = elim (verdict idle_secs now se) [
  | some why ↦ retain idle_secs now (Limits.drop l se.slot) (closed why 1 ∷ log) m
  | none ↦
      let rest = retain idle_secs now l log m in
      record rest { sessions = (src, se) ∷ rest.sessions }
]

abbrev pub cleanup : ℕ → ℕ → State → State
cleanup idle_secs now s =
    let kept = retain idle_secs now s.limits s.metrics s.sessions in
    record s {
      sessions = kept.sessions;
      limits = kept.limits;
      metrics = active (length kept.sessions) ∷ kept.metrics;
    }

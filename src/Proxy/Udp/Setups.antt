-- ===== src/Proxy/Udp/Setups.antt =====
-- src/proxy/udp.rs: the pending marks against the setup tasks.
use oxiduct.Base.{
  ℕ, zero, suc, ◌+◌, ◌≡◌, refl, sym, ◌∙◌, Bool, true, false, List, [], ◌∷◌, Option, none, some,
  arith, length, get_elem?, remove_at, ite, ◌==◌, if_cases, Bool-cases, inl, inr,
}
use oxiduct.Base.Map.{contains, contains-forget}
use oxiduct.Net.{SocketAddr, SocketAddr-discrete}
use oxiduct.Limits.{ConnLimits, Admission, admitted, rejected, try_acquire}
use oxiduct.Config.{ProxyConfig}
use oxiduct.Proxy.Udp
use oxiduct.Proxy.Udp.{
  Session, Listener, serving, missing, draining_tick, drained, shut, Phase, opening, opened,
  checked, ending, Setup, State, Packet, start, session_of, decide, force, evict, slow_path,
  fast_path,
}
use oxiduct.Proxy.Udp.Steps.{
  Move, opens, fails, tests, inserts, ends, Event, packet, marks, stops, ticks_sessions,
  ticks_pending, forces, shuts_down, setup, sends, receives, dies, cleans, step, run, advance,
  advance_at, set_phase, at_phase, update_setups, mark, tick_pending,
}
use oxiduct.Proxy.Udp.Histories.{when_serving_cases}

-- How many setup tasks a source has.
unfoldable pub tasks : SocketAddr → List Setup → ℕ
tasks src [] = 0
tasks src (t ∷ ts) = ite (SocketAddr-discrete src t.src) 1 0 + tasks src ts

abbrev pub marked : Bool → ℕ
marked true = 1
marked false = 0

-- A source has one setup task if it is marked, and none if it is not.
abbrev pub IsMarked : State → Type 0
IsMarked s =
    (src : SocketAddr) → marked (contains SocketAddr-discrete src s.pending) ≡ tasks src s.setups

pub tasks-set_phase :
    (src : SocketAddr) (i : ℕ) (p : Phase) (ts : List Setup)
    → tasks src (set_phase i p ts) ≡ tasks src ts
unfolding tasks set_phase
tasks-set_phase src i p [] = refl
tasks-set_phase src zero p (t ∷ ts) = refl
tasks-set_phase src (suc i) p (t ∷ ts) = omega (arith, tasks-set_phase src i p ts)

tasks-update_setups :
    (src : SocketAddr) (f : Session → Session) (ts : List Setup)
    → tasks src (update_setups f ts) ≡ tasks src ts
unfolding tasks update_setups
tasks-update_setups src f [] = refl
tasks-update_setups src f (t ∷ ts) = omega (arith, tasks-update_setups src f ts)

tasks-remove_at :
    (src : SocketAddr) (i : ℕ) (ts : List Setup) (t : Setup)
    → get_elem? ts i ≡ some t
    → ite (SocketAddr-discrete src t.src) 1 0 + tasks src (remove_at i ts) ≡ tasks src ts
unfolding tasks
tasks-remove_at src i [] t e = ground arith
tasks-remove_at src zero (u ∷ ts) t e = ground arith
tasks-remove_at src (suc i) (u ∷ ts) t e = omega (arith, tasks-remove_at src i ts t e)

decide-IsMarked :
    (s : State) (v : IsMarked s) (src : SocketAddr) (p : Packet) (r : ConnLimits × Admission)
    → contains SocketAddr-discrete src s.pending ≡ false
    → IsMarked (decide s src p r)
unfolding contains tasks
decide-IsMarked s v src p (l, rejected r) e k = v k
decide-IsMarked s v src p (l, admitted slot warnings) e k = ground (arith, v k, v src)

mark-IsMarked : (s : State) (l : Listener) → IsMarked s → IsMarked (mark s l)
unfolding Udp.admit
mark-IsMarked s (missing src p) v = elim (Bool-cases (contains SocketAddr-discrete src s.pending)) [
  | inl there ↦ rw there v
  | inr fresh ↦ rw fresh (decide-IsMarked s v src p (try_acquire s.limits src.ip) fresh)
]
mark-IsMarked s serving v = v
mark-IsMarked s (draining_tick none_left) v = v
mark-IsMarked s drained v = v
mark-IsMarked s shut v = v

at_phase-IsMarked : (s : State) (i : ℕ) (p : Phase) → IsMarked s → IsMarked (at_phase s i p)
at_phase-IsMarked s i p v src = ground (arith, v src, tasks-set_phase src i p s.setups)

advance-IsMarked :
    (s : State) (i : ℕ) (t : Setup) (p : Phase) (m : Move)
    → get_elem? s.setups i ≡ some t
    → IsMarked s
    → IsMarked (advance s i t.src t.first p m)
unfolding advance
advance-IsMarked s i t (opening slot) (opens now) e v = at_phase-IsMarked s i (opened _) v
advance-IsMarked s i t (opening slot) fails e v = at_phase-IsMarked s i ending v
advance-IsMarked s i t (opened se) tests e v =
    if_cases IsMarked s.forced _ _ (at_phase-IsMarked s i ending v)
      (at_phase-IsMarked s i (checked _) v)
advance-IsMarked s i t (checked se) inserts e v = at_phase-IsMarked s i ending v
advance-IsMarked s i t ending ends e v = λ src. ground (
  arith,
  v src,
  v t.src,
  contains-forget SocketAddr-discrete t.src src s.pending,
  tasks-remove_at src i s.setups t e,
  tasks-remove_at t.src i s.setups t e,
)
advance-IsMarked s i t (opening slot) tests e v = v
advance-IsMarked s i t (opening slot) inserts e v = v
advance-IsMarked s i t (opening slot) ends e v = v
advance-IsMarked s i t (opened se) (opens now) e v = v
advance-IsMarked s i t (opened se) fails e v = v
advance-IsMarked s i t (opened se) inserts e v = v
advance-IsMarked s i t (opened se) ends e v = v
advance-IsMarked s i t (checked se) (opens now) e v = v
advance-IsMarked s i t (checked se) fails e v = v
advance-IsMarked s i t (checked se) tests e v = v
advance-IsMarked s i t (checked se) ends e v = v
advance-IsMarked s i t ending (opens now) e v = v
advance-IsMarked s i t ending fails e v = v
advance-IsMarked s i t ending tests e v = v
advance-IsMarked s i t ending inserts e v = v

advance_at-IsMarked :
    (s : State) (i : ℕ) (o : Option Setup) (m : Move)
    → get_elem? s.setups i ≡ o
    → IsMarked s
    → IsMarked (advance_at s i o m)
advance_at-IsMarked s i none m e v = v
advance_at-IsMarked s i (some t) m e v = advance-IsMarked s i t t.phase m e v

fast_path-IsMarked :
    (s : State) (now : ℕ) (src : SocketAddr) (p : Packet) (o : Option Session)
    → IsMarked s
    → IsMarked (fast_path s now src p o)
unfolding fast_path
fast_path-IsMarked s now src p none v = if_cases IsMarked s.draining s _ v v
fast_path-IsMarked s now src p (some se) v =
    if_cases IsMarked se.cancelled _ _ (if_cases IsMarked s.draining (evict s src se) _ v v) v

tick_pending-IsMarked : (s : State) (l : Listener) → IsMarked s → IsMarked (tick_pending s l)
tick_pending-IsMarked s (draining_tick true) v = if_cases IsMarked (length s.pending == 0) _ _ v v
tick_pending-IsMarked s (draining_tick false) v = v
tick_pending-IsMarked s serving v = v
tick_pending-IsMarked s (missing src p) v = v
tick_pending-IsMarked s drained v = v
tick_pending-IsMarked s shut v = v

pub step-IsMarked :
    (idle_secs : ℕ) (s : State) (ev : Event) → IsMarked s → IsMarked (step idle_secs s ev)
unfolding step
step-IsMarked idle_secs s (packet now src p) v =
    when_serving_cases IsMarked s.listener _ s (fast_path-IsMarked s now src p _ v) v
step-IsMarked idle_secs s marks v = mark-IsMarked s s.listener v
step-IsMarked idle_secs s stops v = when_serving_cases IsMarked s.listener _ s v v
step-IsMarked idle_secs s ticks_sessions v =
    when_serving_cases IsMarked s.listener _ s (if_cases IsMarked s.draining _ s v v) v
step-IsMarked idle_secs s ticks_pending v = tick_pending-IsMarked s s.listener v
step-IsMarked idle_secs s forces v =
    when_serving_cases IsMarked s.listener _ s (if_cases IsMarked s.forced (force s) s v v) v
step-IsMarked idle_secs s shuts_down v = v
step-IsMarked idle_secs s (setup i m) v = advance_at-IsMarked s i _ m refl v
step-IsMarked idle_secs s (sends id now) v = λ src. v src ∙ sym (tasks-update_setups src _ s.setups)
step-IsMarked idle_secs s (receives id now) v =
    λ src. v src ∙ sym (tasks-update_setups src _ s.setups)
step-IsMarked idle_secs s (dies id) v = λ src. v src ∙ sym (tasks-update_setups src _ s.setups)
step-IsMarked idle_secs s (cleans now) v = v

run-IsMarked :
    (idle_secs : ℕ) (s : State) (evs : List Event) → IsMarked s → IsMarked (run idle_secs s evs)
unfolding run
run-IsMarked idle_secs s [] v = v
run-IsMarked idle_secs s (ev ∷ evs) v =
    run-IsMarked idle_secs (step idle_secs s ev) evs (step-IsMarked idle_secs s ev v)

pub start-IsMarked : (cfg : ProxyConfig) → IsMarked (start cfg)
unfolding start contains tasks
start-IsMarked cfg src = refl

pub run-start-IsMarked :
    (cfg : ProxyConfig) (evs : List Event) → IsMarked (run cfg.idle_timeout_secs (start cfg) evs)
run-start-IsMarked cfg evs = run-IsMarked cfg.idle_timeout_secs (start cfg) evs (start-IsMarked cfg)

-- Over any history of a listener, a source has one setup task if it is marked pending, and none if
-- it is not.
pub tasks-run :
    (cfg : ProxyConfig) (evs : List Event) (src : SocketAddr)
    → tasks src (run cfg.idle_timeout_secs (start cfg) evs).setups
      ≡ marked
          (contains SocketAddr-discrete src (run cfg.idle_timeout_secs (start cfg) evs).pending)
tasks-run cfg evs src = sym (run-start-IsMarked cfg evs src)

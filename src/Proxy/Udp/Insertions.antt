-- ===== src/Proxy/Udp/Insertions.antt =====
-- src/proxy/udp.rs: histories in which no insertion overtakes the listener.
use oxiduct.Base.{
  ℕ, ◌≡◌, refl, ap, Bool, true, false, List, [], ◌∷◌, Option, none, some, arith, length, get_elem?,
  ite, ◌==◌, if◌then◌else◌, if_cases,
}
use oxiduct.Base.Map.{contains}
use oxiduct.Net.{SocketAddr, SocketAddr-discrete}
use oxiduct.Limits.{ConnLimits, Admission, admitted, rejected}
use oxiduct.Config.{ProxyConfig}
use oxiduct.Proxy.Udp
use oxiduct.Proxy.Udp.{
  Session, Listener, serving, missing, draining_tick, drained, shut, Phase, opening, opened,
  checked, ending, Setup, State, Packet, start, session_of, decide, force, evict, slow_path,
  fast_path, retain, try_send, touch, cancel, cleanup,
}
use oxiduct.Proxy.Udp.Steps.{
  Move, opens, fails, tests, inserts, ends, Event, packet, marks, stops, ticks_sessions,
  ticks_pending, forces, shuts_down, setup, sends, receives, dies, cleans, step, run, advance,
  advance_at, update, when_id, sent_up, sent_down, mark, tick_pending,
}
use oxiduct.Proxy.Udp.Slots.{retain-none, session_of-update_sessions, cancel_all_lem}
use oxiduct.Proxy.Udp.Histories.{when_serving_cases}
use oxiduct.Proxy.Udp.Setups.{IsMarked, step-IsMarked, start-IsMarked}
use oxiduct.Proxy.Udp.Replacement.{
  live, holding, shrunk, rephase-IsFresh, insert-IsFresh, fast_path-IsFresh, holding-remove_at,
  holding-update_setups, looked_up, IsFresh,
}

-- An insertion for the source that the listener has looked up and not yet marked.
abbrev meets : Option Setup → Option SocketAddr → Bool
meets (some t) (some src) = ite (SocketAddr-discrete t.src src) true false
meets none o = false
meets (some t) none = false

unfoldable pub overtakes : State → Event → Bool
overtakes s (setup i inserts) = meets (get_elem? s.setups i) (looked_up s.listener)
overtakes s ev = false

-- No insertion of a history overtakes the listener.
unfoldable pub is_calm : ℕ → State → List Event → Bool
unfolding overtakes
is_calm idle_secs s [] = true
is_calm idle_secs s (ev ∷ evs) =
    let rest = is_calm idle_secs (step idle_secs s ev) evs in if overtakes s ev then false else rest

advance-IsFresh :
    (s : State) (i : ℕ) (t : Setup) (p : Phase) (m : Move)
    → get_elem? s.setups i ≡ some t
    → t.phase ≡ p
    → overtakes s (setup i m) ≡ false
    → IsMarked s
    → IsFresh s
    → IsFresh (advance s i t.src t.first p m)
unfolding advance overtakes
advance-IsFresh s i t (opening slot) (opens now) e h c m v =
    let f = rephase-IsFresh s i t (opened _) e (ap live h) v in
    record { setups = f.setups; found = f.found }
advance-IsFresh s i t (opening slot) fails e h c m v =
    let f = rephase-IsFresh s i t ending e (ap live h) v in
    record { setups = f.setups; found = f.found }
advance-IsFresh s i t (opened se) tests e h c m v =
    let f = rephase-IsFresh s i t ending e (ap live h) v in
    if_cases IsFresh s.forced _ _ (record { setups = f.setups; found = f.found })
      (rephase-IsFresh s i t (checked (try_send t.first se)) e (ap live h) v)
advance-IsFresh s i t (checked se) inserts e h c m v =
    insert-IsFresh s i t se e (ap live h) (λ o. ground (arith, c, e, o)) m v
advance-IsFresh s i t ending ends e h c m v =
    shrunk s _ (λ k n. n) (λ k. holding-remove_at k i s.setups) (λ k n. n) v
advance-IsFresh s i t (opening slot) tests e h c m v = v
advance-IsFresh s i t (opening slot) inserts e h c m v = v
advance-IsFresh s i t (opening slot) ends e h c m v = v
advance-IsFresh s i t (opened se) (opens now) e h c m v = v
advance-IsFresh s i t (opened se) fails e h c m v = v
advance-IsFresh s i t (opened se) inserts e h c m v = v
advance-IsFresh s i t (opened se) ends e h c m v = v
advance-IsFresh s i t (checked se) (opens now) e h c m v = v
advance-IsFresh s i t (checked se) fails e h c m v = v
advance-IsFresh s i t (checked se) tests e h c m v = v
advance-IsFresh s i t (checked se) ends e h c m v = v
advance-IsFresh s i t ending (opens now) e h c m v = v
advance-IsFresh s i t ending fails e h c m v = v
advance-IsFresh s i t ending tests e h c m v = v
advance-IsFresh s i t ending inserts e h c m v = v

advance_at-IsFresh :
    (s : State) (i : ℕ) (o : Option Setup) (m : Move)
    → get_elem? s.setups i ≡ o
    → overtakes s (setup i m) ≡ false
    → IsMarked s
    → IsFresh s
    → IsFresh (advance_at s i o m)
advance_at-IsFresh s i none m e c k v = v
advance_at-IsFresh s i (some t) m e c k v = advance-IsFresh s i t t.phase m e refl c k v

update-IsFresh : (s : State) (id : ℕ) (f : Session → Session) → IsFresh s → IsFresh (update id f s)
update-IsFresh s id f v =
    shrunk s _ (λ k h. session_of-update_sessions _ k s.sessions h)
      (λ k. ground (arith, holding-update_setups k (when_id id f) s.setups)) (λ k h. h) v

decide-IsFresh :
    (s : State) (src : SocketAddr) (p : Packet) (r : ConnLimits × Admission)
    → session_of src s.sessions ≡ none
    → IsFresh s
    → IsFresh (decide s src p r)
unfolding holding
decide-IsFresh s src p (l, rejected r) e v = record {
  setups = v.setups;
  found = λ k h. ground arith;
}
decide-IsFresh s src p (l, admitted slot warnings) e v = record {
  setups = λ k h. ground (arith, v.setups k);
  found = λ k h. ground arith;
}

mark-IsFresh : (s : State) (l : Listener) → s.listener ≡ l → IsFresh s → IsFresh (mark s l)
unfolding Udp.admit
mark-IsFresh s (missing src p) h v =
    if_cases IsFresh (contains SocketAddr-discrete src s.pending) _ _
      (record { setups = v.setups; found = λ k n. ground arith })
      (decide-IsFresh s src p _ (v.found src (ap looked_up h)) v)
mark-IsFresh s serving h v = v
mark-IsFresh s (draining_tick none_left) h v = v
mark-IsFresh s drained h v = v
mark-IsFresh s shut h v = v

-- The listener moves to where it has looked nothing up.
idle_listener :
    (s : State) (l : Listener)
    → looked_up l ≡ none
    → IsFresh s
    → IsFresh (record s { listener = l })
idle_listener s l e v = record { setups = v.setups; found = λ k h. ground (arith, e) }

tick_pending-IsFresh : (s : State) (l : Listener) → IsFresh s → IsFresh (tick_pending s l)
tick_pending-IsFresh s (draining_tick true) v =
    if_cases IsFresh (length s.pending == 0) _ _ (idle_listener s drained refl v)
      (idle_listener s serving refl v)
tick_pending-IsFresh s (draining_tick false) v = idle_listener s serving refl v
tick_pending-IsFresh s serving v = v
tick_pending-IsFresh s (missing src p) v = v
tick_pending-IsFresh s drained v = v
tick_pending-IsFresh s shut v = v

force-IsFresh : (s : State) → IsFresh s → IsFresh (force s)
force-IsFresh s v = record {
  setups = λ k h.
      rw (cancel_all_lem s.sessions)
        (session_of-update_sessions cancel k s.sessions (v.setups k h));
  found = λ k h. ground arith;
}

pub step-IsFresh :
    (idle_secs : ℕ) (s : State) (ev : Event)
    → overtakes s ev ≡ false
    → IsMarked s
    → IsFresh s
    → IsFresh (step idle_secs s ev)
unfolding step
step-IsFresh idle_secs s (packet now src p) c m v =
    when_serving_cases IsFresh s.listener _ s (fast_path-IsFresh s now src p _ refl v) v
step-IsFresh idle_secs s marks c m v = mark-IsFresh s s.listener refl v
step-IsFresh idle_secs s stops c m v =
    when_serving_cases IsFresh s.listener _ s (record { setups = v.setups; found = v.found }) v
step-IsFresh idle_secs s ticks_sessions c m v =
    when_serving_cases IsFresh s.listener _ s
      (if_cases IsFresh s.draining _ s (idle_listener s (draining_tick _) refl v) v) v
step-IsFresh idle_secs s ticks_pending c m v = tick_pending-IsFresh s s.listener v
step-IsFresh idle_secs s forces c m v =
    when_serving_cases IsFresh s.listener _ s (if_cases IsFresh s.forced _ s (force-IsFresh s v) v)
      v
step-IsFresh idle_secs s shuts_down c m v = record { setups = v.setups; found = v.found }
step-IsFresh idle_secs s (setup i k) c m v = advance_at-IsFresh s i _ k refl c m v
step-IsFresh idle_secs s (sends id now) c m v = update-IsFresh s id (sent_up now) v
step-IsFresh idle_secs s (receives id now) c m v = update-IsFresh s id (sent_down now) v
step-IsFresh idle_secs s (dies id) c m v = update-IsFresh s id cancel v
step-IsFresh idle_secs s (cleans now) c m v =
    shrunk s _ (λ k h. retain-none idle_secs now k s.limits s.metrics s.sessions h)
      (λ k. omega arith) (λ k h. h) v

run-IsFresh :
    (idle_secs : ℕ) (s : State) (evs : List Event)
    → is_calm idle_secs s evs ≡ true
    → IsMarked s
    → IsFresh s
    → IsFresh (run idle_secs s evs)
unfolding run is_calm
run-IsFresh idle_secs s [] c m v = v
run-IsFresh idle_secs s (ev ∷ evs) c m v =
    run-IsFresh idle_secs (step idle_secs s ev) evs (ground arith) (step-IsMarked idle_secs s ev m)
      (step-IsFresh idle_secs s ev (ground arith) m v)

-- After a history in which no setup task inserts between the listener's lookup of its source and
-- the pending mark, no source with a setup task under way has a session, so that no insertion
-- replaces one; nor has a source that the listener has looked up and not yet marked.
pub run-start-IsFresh :
    (cfg : ProxyConfig) (evs : List Event)
    → is_calm cfg.idle_timeout_secs (start cfg) evs ≡ true
    → IsFresh (run cfg.idle_timeout_secs (start cfg) evs)
unfolding start holding
run-start-IsFresh cfg evs c =
    run-IsFresh cfg.idle_timeout_secs (start cfg) evs c (start-IsMarked cfg)
      (record { setups = λ k h. ground arith; found = λ k h. ground arith })

-- ===== src/Proxy/Udp/Balance.antt =====
-- src/proxy/udp.rs: the metrics over histories without an overtaking insertion.
use oxiduct.Base.{
  ℕ, ◌+◌, ◌≡◌, ◌≢◌, refl, ap, true, List, [], ◌∷◌, Option, none, some, arith, false, ◌==◌, length,
  get_elem?, if_cases,
}
use oxiduct.Base.Map.{contains}
use oxiduct.Net.{SocketAddr, SocketAddr-discrete}
use oxiduct.Limits.{ConnLimits, Admission, admitted, rejected, try_acquire}
use oxiduct.Config.{ProxyConfig}
use oxiduct.Proxy.Udp
use oxiduct.Proxy.Udp.{
  Metric, closed, refused, total, active, verdict, Listener, serving, missing, draining_tick,
  drained, shut, Session, Phase, opening, opened, checked, ending, Setup, State, Packet, start,
  session_of, try_send, touch, cancel, fast_path, evict, slow_path, force, cleanup, cancel_all,
  retain, decide,
}
use oxiduct.Proxy.Udp.Steps.{
  Move, opens, fails, tests, inserts, ends, Event, packet, marks, stops, ticks_sessions,
  ticks_pending, forces, shuts_down, setup, sends, receives, dies, cleans, step, run, advance,
  advance_at, when_serving, mark, tick_pending,
}
use oxiduct.Proxy.Udp.Setups.{IsMarked, step-IsMarked, start-IsMarked}
use oxiduct.Proxy.Udp.Replacement.{live, holding, IsFresh}
use oxiduct.Proxy.Udp.Insertions.{is_calm, step-IsFresh}
use oxiduct.Proxy.Udp.Accounts.{
  total_of, closed_of, gauge_of, Accounts, IsAccounted, evict-Accounts, refresh-Accounts,
  insert-Accounts, update-Accounts, retain-Accounts, holding_pos,
}

-- A step that the listener takes only while it serves.
serving_cases :
    (s next : State)
    → (s.listener ≡ serving → IsAccounted next)
    → IsAccounted s
    → IsAccounted (when_serving s.listener next s)
serving_cases s next p q =
    elim (s.listener) as (λ l. s.listener ≡ l → IsAccounted (when_serving l next s)) [
      | serving ↦ p
      | missing src first ↦ λ e. q
      | draining_tick none_left ↦ λ e. q
      | drained ↦ λ e. q
      | shut ↦ λ e. q
    ]
      refl

serving-ne-shut : (s : State) → s.listener ≡ serving → s.listener ≢ shut
serving-ne-shut s e h = cc

fast_path-IsAccounted :
    (s : State) (now : ℕ) (src : SocketAddr) (p : Packet) (o : Option Session)
    → session_of src s.sessions ≡ o
    → s.listener ≡ serving
    → IsAccounted s
    → IsAccounted (fast_path s now src p o)
unfolding fast_path
fast_path-IsAccounted s now src p none e h v =
    if_cases IsAccounted s.draining s _ v (λ n. v (serving-ne-shut s h))
fast_path-IsAccounted s now src p (some se) e h v =
    let gone = evict-Accounts s src se e (v (serving-ne-shut s h)) in
    if_cases IsAccounted se.cancelled _ _
      (if_cases IsAccounted s.draining (evict s src se) _ (λ n. gone) (λ n. gone))
      (λ n. refresh-Accounts s src (try_send p (touch now se)) se e (v n))

advance-IsAccounted :
    (s : State) (i : ℕ) (t : Setup) (p : Phase) (m : Move)
    → get_elem? s.setups i ≡ some t
    → t.phase ≡ p
    → IsFresh s
    → IsAccounted s
    → IsAccounted (advance s i t.src t.first p m)
unfolding advance
advance-IsAccounted s i t (opening slot) (opens now) e h f v = v
advance-IsAccounted s i t (opening slot) fails e h f v = v
advance-IsAccounted s i t (opened se) tests e h f v = if_cases IsAccounted s.forced _ _ v v
advance-IsAccounted s i t (checked se) inserts e h f v =
    λ n. insert-Accounts s t.src se (f.setups t.src (holding_pos i s.setups t e (ap live h))) (v n)
advance-IsAccounted s i t ending ends e h f v = v
advance-IsAccounted s i t (opening slot) tests e h f v = v
advance-IsAccounted s i t (opening slot) inserts e h f v = v
advance-IsAccounted s i t (opening slot) ends e h f v = v
advance-IsAccounted s i t (opened se) (opens now) e h f v = v
advance-IsAccounted s i t (opened se) fails e h f v = v
advance-IsAccounted s i t (opened se) inserts e h f v = v
advance-IsAccounted s i t (opened se) ends e h f v = v
advance-IsAccounted s i t (checked se) (opens now) e h f v = v
advance-IsAccounted s i t (checked se) fails e h f v = v
advance-IsAccounted s i t (checked se) tests e h f v = v
advance-IsAccounted s i t (checked se) ends e h f v = v
advance-IsAccounted s i t ending (opens now) e h f v = v
advance-IsAccounted s i t ending fails e h f v = v
advance-IsAccounted s i t ending tests e h f v = v
advance-IsAccounted s i t ending inserts e h f v = v

advance_at-IsAccounted :
    (s : State) (i : ℕ) (o : Option Setup) (m : Move)
    → get_elem? s.setups i ≡ o
    → IsFresh s
    → IsAccounted s
    → IsAccounted (advance_at s i o m)
advance_at-IsAccounted s i none m e f v = v
advance_at-IsAccounted s i (some t) m e f v = advance-IsAccounted s i t t.phase m e refl f v

admit-IsAccounted :
    (s : State) (src : SocketAddr) (p : Packet) (r : ConnLimits × Admission)
    → Accounts s.sessions s.metrics
    → IsAccounted (decide s src p r)
unfolding total_of closed_of gauge_of
admit-IsAccounted s src p (l, rejected r) v = λ n. v
admit-IsAccounted s src p (l, admitted slot warnings) v = λ n. v

mark-IsAccounted :
    (s : State) (l : Listener) → s.listener ≡ l → IsAccounted s → IsAccounted (mark s l)
unfolding Udp.admit
mark-IsAccounted s (missing src p) e v =
    let now = v (λ h. cc) in
    if_cases IsAccounted (contains SocketAddr-discrete src s.pending) _ _ (λ n. now)
      (admit-IsAccounted s src p (try_acquire s.limits src.ip) now)
mark-IsAccounted s serving e v = v
mark-IsAccounted s (draining_tick none_left) e v = v
mark-IsAccounted s drained e v = v
mark-IsAccounted s shut e v = v

tick_pending-IsAccounted :
    (s : State) (l : Listener) → s.listener ≡ l → IsAccounted s → IsAccounted (tick_pending s l)
tick_pending-IsAccounted s (draining_tick true) e v =
    let now = v (λ h. cc) in if_cases IsAccounted (length s.pending == 0) _ _ (λ n. now) (λ n. now)
tick_pending-IsAccounted s (draining_tick false) e v = λ n. v (λ h. cc)
tick_pending-IsAccounted s serving e v = v
tick_pending-IsAccounted s (missing src p) e v = v
tick_pending-IsAccounted s drained e v = v
tick_pending-IsAccounted s shut e v = v

step-IsAccounted :
    (idle_secs : ℕ) (s : State) (ev : Event)
    → IsFresh s
    → IsAccounted s
    → IsAccounted (step idle_secs s ev)
unfolding step
step-IsAccounted idle_secs s (packet now src p) f v =
    serving_cases s _ (λ e. fast_path-IsAccounted s now src p _ refl e v) v
step-IsAccounted idle_secs s marks f v = mark-IsAccounted s s.listener refl v
step-IsAccounted idle_secs s stops f v = serving_cases s _ (λ e n. v n) v
step-IsAccounted idle_secs s ticks_sessions f v =
    serving_cases s _ (λ e. if_cases IsAccounted s.draining _ s (λ n. v (serving-ne-shut s e)) v) v
step-IsAccounted idle_secs s ticks_pending f v = tick_pending-IsAccounted s s.listener refl v
step-IsAccounted idle_secs s forces f v =
    serving_cases s _ (λ e. if_cases IsAccounted s.forced _ s (λ n. absurd (n refl)) v) v
step-IsAccounted idle_secs s shuts_down f v = v
step-IsAccounted idle_secs s (setup i m) f v = advance_at-IsAccounted s i _ m refl f v
step-IsAccounted idle_secs s (sends id now) f v = λ n. update-Accounts _ s.sessions s.metrics (v n)
step-IsAccounted idle_secs s (receives id now) f v =
    λ n. update-Accounts _ s.sessions s.metrics (v n)
step-IsAccounted idle_secs s (dies id) f v = λ n. update-Accounts _ s.sessions s.metrics (v n)
step-IsAccounted idle_secs s (cleans now) f v = λ n. retain-Accounts idle_secs now s (v n)

run-IsAccounted :
    (idle_secs : ℕ) (s : State) (evs : List Event)
    → is_calm idle_secs s evs ≡ true
    → IsMarked s
    → IsFresh s
    → IsAccounted s
    → IsAccounted (run idle_secs s evs)
unfolding run is_calm
run-IsAccounted idle_secs s [] c m f v = v
run-IsAccounted idle_secs s (ev ∷ evs) c m f v =
    run-IsAccounted idle_secs (step idle_secs s ev) evs (ground arith)
      (step-IsMarked idle_secs s ev m) (step-IsFresh idle_secs s ev (ground arith) m f)
      (step-IsAccounted idle_secs s ev f v)

-- After a history in which no insertion overtakes the listener, and until the listener has shut its
-- sessions, the sessions opened are those closed, for whatever reason, and those in the map, and
-- the active gauge stands at the sessions in the map; the forced shutdown then closes exactly the
-- rest, and sets the gauge to 0.
pub run-start-IsAccounted :
    (cfg : ProxyConfig) (evs : List Event)
    → is_calm cfg.idle_timeout_secs (start cfg) evs ≡ true
    → (run cfg.idle_timeout_secs (start cfg) evs).listener ≢ shut
    → let s = run cfg.idle_timeout_secs (start cfg) evs in
      (total_of s.metrics ≡ closed_of s.metrics + length s.sessions)
      × (gauge_of s.metrics ≡ length s.sessions)
      × (total_of (force s).metrics ≡ closed_of (force s).metrics)
      × (gauge_of (force s).metrics ≡ 0)
unfolding start holding total_of closed_of gauge_of
run-start-IsAccounted cfg evs c n =
    let (keys, sum, gauge) =
      run-IsAccounted cfg.idle_timeout_secs (start cfg) evs c (start-IsMarked cfg)
        (record { setups = λ k h. ground arith; found = λ k h. ground arith })
        (λ z. (tt, refl, refl)) n in
    (sum, gauge, sum, refl)

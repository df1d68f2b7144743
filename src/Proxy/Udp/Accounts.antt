-- ===== src/Proxy/Udp/Accounts.antt =====
-- src/proxy/udp.rs: the metrics against the sessions in the map.
use oxiduct.Base.{
  ℕ, zero, suc, ◌+◌, ◌<◌, ◌≡◌, ◌≢◌, refl, inl, inr, List, [], ◌∷◌, none, some, arith, length,
  get_elem?, Option-cases,
}
use oxiduct.Base.Map.{
  insert, insert-HasDistinctKeys, remove-HasDistinctKeys, length-insert_new, length-insert_found,
  length-remove, HasDistinctKeys,
}
use oxiduct.Net.{SocketAddr, SocketAddr-discrete}
use oxiduct.Limits
use oxiduct.Limits.{ConnLimits, Admission, admitted, rejected, try_acquire}
use oxiduct.Proxy.Udp.{
  Metric, closed, refused, total, active, verdict, shut, Session, Setup, State, session_of, evict,
  cleanup, retain,
}
use oxiduct.Proxy.Udp.Steps.{update_sessions}
use oxiduct.Proxy.Udp.Slots.{retain-HasDistinctKeys, update-HasDistinctKeys}
use oxiduct.Proxy.Udp.Replacement.{live, holding}

-- The counters and the gauge, as a log of calls leaves them.
unfoldable pub total_of : List Metric → ℕ
total_of [] = 0
total_of (total ∷ log) = total_of log + 1
total_of (closed why by ∷ log) = total_of log
total_of (refused r ∷ log) = total_of log
total_of (active n ∷ log) = total_of log

unfoldable pub closed_of : List Metric → ℕ
closed_of [] = 0
closed_of (total ∷ log) = closed_of log
closed_of (closed why by ∷ log) = closed_of log + by
closed_of (refused r ∷ log) = closed_of log
closed_of (active n ∷ log) = closed_of log

unfoldable pub gauge_of : List Metric → ℕ
gauge_of [] = 0
gauge_of (total ∷ log) = gauge_of log
gauge_of (closed why by ∷ log) = gauge_of log
gauge_of (refused r ∷ log) = gauge_of log
gauge_of (active n ∷ log) = n

abbrev pub Accounts : List (SocketAddr × Session) → List Metric → Type 0
Accounts m log =
    HasDistinctKeys SocketAddr-discrete m
    × (total_of log ≡ closed_of log + length m)
    × (gauge_of log ≡ length m)

-- Until the forced shutdown.
abbrev pub IsAccounted : State → Type 0
IsAccounted s = s.listener ≢ shut → Accounts s.sessions s.metrics

length-update_sessions :
    (f : Session → Session) (m : List (SocketAddr × Session))
    → length (update_sessions f m) ≡ length m
unfolding update_sessions
length-update_sessions f [] = refl
length-update_sessions f ((src, se) ∷ m) = omega (arith, length-update_sessions f m)

pub update-Accounts :
    (f : Session → Session) (m : List (SocketAddr × Session)) (log : List Metric)
    → Accounts m log
    → Accounts (update_sessions f m) log
update-Accounts f m log (keys, sum, gauge) = (
  update-HasDistinctKeys f m keys,
  omega (arith, sum, length-update_sessions f m),
  omega (arith, gauge, length-update_sessions f m),
)

pub evict-Accounts :
    (s : State) (src : SocketAddr) (se : Session)
    → session_of src s.sessions ≡ some se
    → Accounts s.sessions s.metrics
    → Accounts (evict s src se).sessions (evict s src se).metrics
unfolding total_of closed_of gauge_of
evict-Accounts s src se e (keys, sum, gauge) = (
  remove-HasDistinctKeys SocketAddr-discrete src s.sessions keys,
  omega (arith, sum, length-remove SocketAddr-discrete src se s.sessions keys e),
  refl,
)

pub refresh-Accounts :
    (s : State) (src : SocketAddr) (v w : Session)
    → session_of src s.sessions ≡ some w
    → Accounts s.sessions s.metrics
    → Accounts (insert SocketAddr-discrete src v s.sessions) s.metrics
refresh-Accounts s src v w e (keys, sum, gauge) = (
  insert-HasDistinctKeys SocketAddr-discrete src v s.sessions keys,
  omega (arith, sum, length-insert_found SocketAddr-discrete src v w s.sessions e),
  omega (arith, gauge, length-insert_found SocketAddr-discrete src v w s.sessions e),
)

pub insert-Accounts :
    (s : State) (src : SocketAddr) (se : Session)
    → session_of src s.sessions ≡ none
    → Accounts s.sessions s.metrics
    → Accounts
        (insert SocketAddr-discrete src se s.sessions)
        (active (length (insert SocketAddr-discrete src se s.sessions)) ∷ total ∷ s.metrics)
unfolding total_of closed_of gauge_of
insert-Accounts s src se e (keys, sum, gauge) = (
  insert-HasDistinctKeys SocketAddr-discrete src se s.sessions keys,
  omega (arith, sum, length-insert_new SocketAddr-discrete src se s.sessions e),
  refl,
)

retain_sum :
    (idle_secs now : ℕ) (l : ConnLimits) (log : List Metric) (m : List (SocketAddr × Session))
    → let kept = retain idle_secs now l log m in
      (total_of kept.metrics ≡ total_of log)
      × (closed_of kept.metrics + length kept.sessions ≡ closed_of log + length m)
unfolding retain total_of closed_of
retain_sum idle_secs now l log [] = (refl, refl)
retain_sum idle_secs now l log ((src, se) ∷ m) = elim (Option-cases (verdict idle_secs now se)) [
  | inr (why, h) ↦
      let (t, c) = retain_sum idle_secs now (Limits.drop l se.slot) (closed why 1 ∷ log) m in
      rw (h, retain) (t, omega (arith, c))
  | inl h ↦ let (t, c) = retain_sum idle_secs now l log m in rw (h, retain) (t, omega (arith, c))
]

pub holding_pos :
    (i : ℕ) (ts : List Setup) (t : Setup)
    → get_elem? ts i ≡ some t
    → live t.phase ≡ 1
    → 0 < holding t.src ts
unfolding holding
holding_pos i [] t e h = ground arith
holding_pos zero (u ∷ ts) t e h = ground arith
holding_pos (suc i) (u ∷ ts) t e h = ground (arith, holding_pos i ts t e h)

pub retain-Accounts :
    (idle_secs now : ℕ) (s : State)
    → Accounts s.sessions s.metrics
    → Accounts (cleanup idle_secs now s).sessions (cleanup idle_secs now s).metrics
unfolding total_of closed_of gauge_of
retain-Accounts idle_secs now s (keys, sum, gauge) =
    let (t, c) = retain_sum idle_secs now s.limits s.metrics s.sessions in
    (
      retain-HasDistinctKeys idle_secs now s.limits s.metrics s.sessions keys,
      omega (arith, sum, t, c),
      refl,
    )

-- ===== src/Proxy/Udp/Drain.antt =====
-- src/proxy/udp.rs: when a draining listener leaves its loop.
use oxiduct.Base.{ℕ, ◌≡◌, refl, ◌↔◌, true, List, [], ◌∷◌, arith, length}
use oxiduct.Base.Map.{contains}
use oxiduct.Net.{SocketAddr, SocketAddr-discrete}
use oxiduct.Config.{ProxyConfig}
use oxiduct.Proxy.Udp.{State, Setup, serving, drained, start}
use oxiduct.Proxy.Udp.Steps.{Event, ticks_sessions, ticks_pending, step, run}
use oxiduct.Proxy.Udp.Setups.{IsMarked, run-start-IsMarked, tasks, marked}

pub length-zero_iff {ℓ} : {A : Type ℓ} (xs : List A) → (length xs ≡ 0) ↔ (xs ≡ [])
length-zero_iff [] = ((λ h. refl), λ h. refl)
length-zero_iff (x ∷ xs) = ((λ h. ground arith), λ h. ground arith)

-- Marks without tasks, and tasks without marks, cannot be.
no_marks_iff :
    (pending : List SocketAddr) (ts : List Setup)
    → ((src : SocketAddr) → marked (contains SocketAddr-discrete src pending) ≡ tasks src ts)
    → (pending ≡ []) ↔ (ts ≡ [])
unfolding contains tasks
no_marks_iff [] [] v = ((λ h. refl), λ h. refl)
no_marks_iff [] (t ∷ ts) v = ((λ h. ground (arith, v t.src)), λ h. refl)
no_marks_iff (x ∷ xs) [] v = ((λ h. refl), λ h. ground (arith, v x))
no_marks_iff (x ∷ xs) (t ∷ ts) v = ((λ h. ground arith), λ h. ground arith)

-- The two tests of a drain tick, with nothing between them.
abbrev pub drain_tick : ℕ → State → State
drain_tick idle_secs s = step idle_secs (step idle_secs s ticks_sessions) ticks_pending

drain_tick_lem :
    (idle_secs : ℕ) (s : State)
    → s.listener ≡ serving
    → IsMarked s
    → ((drain_tick idle_secs s).listener ≡ drained)
      ↔ ((s.draining ≡ true) × (s.sessions ≡ []) × (s.setups ≡ []))
unfolding step
drain_tick_lem idle_secs s here v = ground (
  arith,
  length-zero_iff s.sessions,
  length-zero_iff s.pending,
  no_marks_iff s.pending s.setups v,
)

-- After any history, a drain tick whose two tests are not interrupted ends the listener exactly if
-- it drains, no session is left, and no setup task is under way.
pub drain_tick_iff :
    (cfg : ProxyConfig) (evs : List Event)
    → (run cfg.idle_timeout_secs (start cfg) evs).listener ≡ serving
    → ((drain_tick cfg.idle_timeout_secs (run cfg.idle_timeout_secs (start cfg) evs)).listener
        ≡ drained)
      ↔ (((run cfg.idle_timeout_secs (start cfg) evs).draining ≡ true)
          × ((run cfg.idle_timeout_secs (start cfg) evs).sessions ≡ [])
          × ((run cfg.idle_timeout_secs (start cfg) evs).setups ≡ []))
drain_tick_iff cfg evs here =
    drain_tick_lem cfg.idle_timeout_secs _ here (run-start-IsMarked cfg evs)

-- ===== src/Proxy/Udp/Caps.antt =====
-- src/proxy/udp.rs: the limits in force and the total count, at each event.
use oxiduct.Base.{ℕ, ◌+◌, ◌≤◌, ◌≡◌, refl, inl, List, [], ◌∷◌, arith, Option-cases, inr, ◌∙◌}
use oxiduct.Net.{SocketAddr}
use oxiduct.Limits
use oxiduct.Limits.{ConnLimits}
use oxiduct.Config.{ProxyConfig}
use oxiduct.Proxy.Udp
use oxiduct.Proxy.Udp.{
  Metric, closed, verdict, Listener, serving, missing, draining_tick, drained, shut, Session, Phase,
  opening, opened, checked, ending, Setup, State, Packet, start, session_of, try_send, touch,
  cancel, fast_path, evict, slow_path, force, cleanup, cancel_all, retain,
}
use oxiduct.Proxy.Udp.Steps.{
  Event, packet, marks, stops, ticks_sessions, ticks_pending, forces, shuts_down, setup, sends,
  receives, dies, cleans, step, advance,
}

retain-caps :
    (idle_secs now : ℕ) (l : ConnLimits) (log : List Metric) (m : List (SocketAddr × Session))
    → ((retain idle_secs now l log m).limits.max_total ≡ l.max_total)
      × ((retain idle_secs now l log m).limits.max_per_ip ≡ l.max_per_ip)
unfolding retain Limits.drop
retain-caps idle_secs now l log [] = (refl, refl)
retain-caps idle_secs now l log ((src, se) ∷ m) = elim (Option-cases (verdict idle_secs now se)) [
  | inr (why, h) ↦
      rw (h, retain) (retain-caps idle_secs now (Limits.drop l se.slot) (closed why 1 ∷ log) m)
  | inl h ↦ rw (h, retain) (retain-caps idle_secs now l log m)
]

-- The limits in force are those configured.
abbrev pub HasCaps : ProxyConfig → State → Type 0
HasCaps cfg s = (s.limits.max_total ≡ cfg.max_connections) × (s.limits.max_per_ip ≡ cfg.max_per_ip)

pub step-HasCaps :
    (cfg : ProxyConfig) (idle_secs : ℕ) (s : State) (ev : Event)
    → HasCaps cfg s
    → HasCaps cfg (step idle_secs s ev)
unfolding step advance fast_path Udp.admit Limits.try_acquire Limits.admit Limits.drop
step-HasCaps cfg idle_secs s (cleans now) h =
    let c = retain-caps idle_secs now s.limits s.metrics s.sessions in (c.0 ∙ h.0, c.1 ∙ h.1)
step-HasCaps cfg idle_secs s (packet now src p) h = ground arith
step-HasCaps cfg idle_secs s marks h = ground arith
step-HasCaps cfg idle_secs s stops h = ground arith
step-HasCaps cfg idle_secs s ticks_sessions h = ground arith
step-HasCaps cfg idle_secs s ticks_pending h = ground arith
step-HasCaps cfg idle_secs s forces h = ground arith
step-HasCaps cfg idle_secs s shuts_down h = ground arith
step-HasCaps cfg idle_secs s (setup i m) h = ground arith
step-HasCaps cfg idle_secs s (sends id now) h = h
step-HasCaps cfg idle_secs s (receives id now) h = h
step-HasCaps cfg idle_secs s (dies id) h = h

retain-total :
    (idle_secs now : ℕ) (l : ConnLimits) (log : List Metric) (m : List (SocketAddr × Session))
    → (retain idle_secs now l log m).limits.state.total ≤ l.state.total
unfolding retain Limits.drop
retain-total idle_secs now l log [] = omega arith
retain-total idle_secs now l log ((src, se) ∷ m) = elim (Option-cases (verdict idle_secs now se)) [
  | inr (why, h) ↦
      let rest = retain-total idle_secs now (Limits.drop l se.slot) (closed why 1 ∷ log) m in
      rw (h, retain) (omega (arith, rest))
  | inl h ↦ rw (h, retain) (retain-total idle_secs now l log m)
]

pub step-total :
    (idle_secs : ℕ) (s : State) (ev : Event)
    → (step idle_secs s ev).limits.state.total ≤ s.limits.state.total + 1
unfolding step advance fast_path Udp.admit Limits.try_acquire Limits.admit Limits.drop
step-total idle_secs s (cleans now) =
    omega (arith, retain-total idle_secs now s.limits s.metrics s.sessions)
step-total idle_secs s (packet now src p) = ground arith
step-total idle_secs s marks = ground arith
step-total idle_secs s stops = ground arith
step-total idle_secs s ticks_sessions = ground arith
step-total idle_secs s ticks_pending = ground arith
step-total idle_secs s forces = ground arith
step-total idle_secs s shuts_down = ground arith
step-total idle_secs s (setup i m) = ground arith
step-total idle_secs s (sends id now) = omega arith
step-total idle_secs s (receives id now) = omega arith
step-total idle_secs s (dies id) = omega arith

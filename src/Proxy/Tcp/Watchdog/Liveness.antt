-- ===== src/Proxy/Tcp/Watchdog/Liveness.antt =====
-- The watchdog returns: which turns its loop does not survive.
use mathlib.Core.List.{Memᴰ}
use mathlib.Core.Path.{subst}
use oxiduct.Base.{ℕ, ◌+◌, ◌*◌, ◌≤◌, ◌<◌, ◌≡◌, ◌≢◌, ◌⊎◌, inl, inr, Bool, List, [], ◌∷◌, arith, refl}
use oxiduct.Proxy.Tcp.Watchdog.{
  Reason, Watch, start, Timeouts, Turn, Outcome, running, ended, Check, stop, wait, check, turn,
  react, after_check, shutting_down, resume, watchdog,
}
use oxiduct.Proxy.Tcp.Watchdog.Known.{Occurs}

-- A turn that no loop survives.
abbrev pub IsLast : Timeouts → Turn → Type 0
IsLast t r = ((0 < t.idle_secs) × (r.last + t.idle_secs * 1000 ≤ r.now)) ⊎ (r.event ≡ shutting_down)

idle_stops :
    (t : Timeouts) (w : Watch) (now last : ℕ)
    → 0 < t.idle_secs
    → last + t.idle_secs * 1000 ≤ now
    → (v : Watch) (wake_ms : ℕ) → check t w now last ≢ wait v wake_ms
unfolding check
idle_stops t w now last on late v wake_ms e = ground arith

after_check_stops :
    (t : Timeouts) (w : Watch) (r : Turn) (c : Check)
    → check t w r.now r.last ≡ c
    → IsLast t r
    → (v : Watch) → after_check c r.event ≢ running v
unfolding react
after_check_stops t w r (stop reason cancelled) e h v q = cc
after_check_stops t w r (wait w' wake_ms) e (inl (on, late)) v q =
    idle_stops t w r.now r.last on late w' wake_ms e
after_check_stops t w r (wait w' wake_ms) e (inr ending) v q = ground arith

-- The outcome is a result.
abbrev pub IsOver : Outcome → Type 0
IsOver o = (reason : Reason) × (cancelled : Bool) × (o ≡ ended reason cancelled)

IsOver-of_stopped : (o : Outcome) → ((v : Watch) → o ≢ running v) → IsOver o
IsOver-of_stopped (running w) h = absurd (h w refl)
IsOver-of_stopped (ended reason cancelled) h = (reason, cancelled, refl)

resume-IsOver : (t : Timeouts) (o : Outcome) (rs : List Turn) → IsOver o → IsOver (resume t o rs)
unfolding resume
resume-IsOver t o [] h = h
resume-IsOver t (running w) (r ∷ rs) (reason, cancelled, e) = cc
resume-IsOver t (ended reason cancelled) (r ∷ rs) h = h

resume_stops :
    (t : Timeouts) (o : Outcome) (rs : List Turn) (r : Turn)
    → Memᴰ r rs
    → IsLast t r
    → IsOver (resume t o rs)
unfolding resume turn
resume_stops t o [] r m h = elim m [ ]
resume_stops t (running w) (x ∷ rs) r (Memᴰ.head e) h =
    resume-IsOver t (turn t w x) rs
      (IsOver-of_stopped _ (after_check_stops t w x _ refl (subst (IsLast t) e h)))
resume_stops t (running w) (x ∷ rs) r (Memᴰ.tail m) h = resume_stops t (turn t w x) rs r m h
resume_stops t (ended reason cancelled) (x ∷ rs) r m h = (reason, cancelled, refl)

-- A run with a turn at which the enabled idle timeout has passed, or at which the shutdown fires,
-- returns.
pub watchdog-IsOver :
    (t : Timeouts) (rs : List Turn) → Occurs (IsLast t) rs → IsOver (watchdog t rs)
unfolding watchdog
watchdog-IsOver t rs (r, m, h) = resume_stops t (running start) rs r m h

-- ===== src/Proxy/Tcp/Watchdog/Deadlines.antt =====
-- One turn of the watchdog: what each end before its `select!` takes, and how long it sleeps.
use oxiduct.Base.{ℕ, ◌+◌, ◌*◌, ◌≤◌, ◌<◌, ◌≡◌, ◌⊎◌, Bool, true, false, ◌||◌, arith, max}
use oxiduct.Base.Words.{u64_max}
use oxiduct.Proxy.Tcp.Watchdog.{
  Reason, both_eof, idle_timeout, half_close_timeout, Watch, Timeouts, stop, wait, watchdog_tick,
  sleep_ms, check, get_or_insert,
}

-- What justifies each end before the `select!`.
abbrev pub Justified : Timeouts → Watch → (now last : ℕ) → Reason → (cancelled : Bool) → Type 0
Justified t w now last reason cancelled =
    ((reason ≡ both_eof) × (cancelled ≡ false) × (w.up_done ≡ true) × (w.down_done ≡ true))
    ⊎ ((reason ≡ idle_timeout)
        × (cancelled ≡ true)
        × (0 < t.idle_secs)
        × (last + t.idle_secs * 1000 ≤ now))
    ⊎ ((reason ≡ half_close_timeout)
        × (cancelled ≡ true)
        × (0 < t.half_close_secs)
        × ((w.up_done || w.down_done) ≡ true)
        × (last + t.half_close_secs * 1000 ≤ now)
        × (get_or_insert w.half_close_since now + t.half_close_secs * 1000 ≤ now))

-- A clean end is reported only when both directions have ended, and it alone leaves the directions
-- uncancelled. The idle timeout ends a turn only if it is enabled and nothing has moved for its
-- whole length, also where the deadline saturates; the grace period only if it is enabled, a
-- direction has ended, and for its whole length nothing has moved and the period has been armed.
-- (The clock has not reached the largest `u64`.)
pub check-stop :
    (t : Timeouts) (w : Watch) (now last : ℕ) (reason : Reason) (cancelled : Bool)
    → now < u64_max
    → check t w now last ≡ stop reason cancelled
    → Justified t w now last reason cancelled
unfolding check
check-stop t w now last reason cancelled small e = ground arith

-- A turn that goes on sleeps at most five seconds, and past each deadline that is on by at most the
-- floor of 20 ms: the idle deadline counts from the last activity, the half-close deadline from the
-- later of the last activity and the arming of the period.
pub check-wait :
    (t : Timeouts) (w w' : Watch) (now last wake_ms : ℕ)
    → check t w now last ≡ wait w' wake_ms
    → (sleep_ms wake_ms ≤ watchdog_tick)
      × (0 < t.idle_secs → now + sleep_ms wake_ms ≤ last + t.idle_secs * 1000 + 20)
      × (0 < t.half_close_secs
          → (w.up_done || w.down_done) ≡ true
          → now + sleep_ms wake_ms
            ≤ max (get_or_insert w.half_close_since now) last + t.half_close_secs * 1000 + 20)
unfolding check
check-wait t w w' now last wake_ms e = ground arith

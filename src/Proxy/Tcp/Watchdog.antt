-- ===== src/Proxy/Tcp/Watchdog.antt =====
-- src/proxy/tcp.rs, `watchdog`: the idle and half-close deadlines of one relayed connection. A turn
-- of the loop reads the clock and the last activity, then waits for one event.
pub mod Deadlines
pub mod Known
pub mod Outcomes
pub mod Liveness
use Prim.Native.String.{String}
use oxiduct.Base.{
  ℕ, ◌+◌, Bool, true, false, ◌&&◌, ◌||◌, List, [], ◌∷◌, Option, none, some, ltb, ◌==◌,
  if◌then◌else◌, min, max,
}
use oxiduct.Base.Words.{saturating_add, saturating_sub, saturating_mul}
use oxiduct.Proxy.Tcp.{Dir, up, down, End, eof, err}

-- Why a connection ended, as the string that `watchdog` returns.
pub data Reason : Type 0 where
  both_eof idle_timeout half_close_timeout shutdown reset : Reason

unfoldable pub text : Reason → String
text both_eof = "eof"
text idle_timeout = "idle_timeout"
text half_close_timeout = "half_close_timeout"
text shutdown = "shutdown"
text reset = "reset"

-- The loop's variables.
pub record Watch : Type 0 where
  pub up_done : Bool
  pub down_done : Bool
  pub channel_open : Bool
  pub half_close_since : Option ℕ

abbrev pub start : Watch
start = record { up_done = false; down_done = false; channel_open = true; half_close_since = none }

pub record Timeouts : Type 0 where
  pub idle_secs : ℕ
  pub half_close_secs : ℕ

-- What the `select!` of a turn meets. `received` and `closed` are `done_rx.recv()`.
pub data Event : Type 0 where
  shutting_down : Event
  received : Dir → End → Event
  closed : Event
  slept : Event

-- What the environment gives one turn: `now_ms()`, the last activity, and the event.
pub record Turn : Type 0 where
  pub now : ℕ
  pub last : ℕ
  pub event : Event

-- The state of the loop after a turn, or its result and whether it called `cancel.cancel()`.
pub data Outcome : Type 0 where
  running : Watch → Outcome
  ended : Reason → (cancelled : Bool) → Outcome

-- The part of a turn before the `select!`: an end, or the variables and the time to sleep.
pub data Check : Type 0 where
  stop : Reason → (cancelled : Bool) → Check
  wait : Watch → (wake_ms : ℕ) → Check

abbrev pub watchdog_tick : ℕ
watchdog_tick = 5000

abbrev pub idle_ms : Timeouts → ℕ
idle_ms t = saturating_mul t.idle_secs 1000

abbrev pub half_close_ms : Timeouts → ℕ
half_close_ms t = saturating_mul t.half_close_secs 1000

-- What the `sleep` arm waits: the wake time, with a floor.
abbrev pub sleep_ms : ℕ → ℕ
sleep_ms wake_ms = max wake_ms 20

-- `*half_close_since.get_or_insert(now)`.
abbrev pub get_or_insert : Option ℕ → ℕ → ℕ
get_or_insert none now = now
get_or_insert (some since) now = since

unfoldable pub check_half_close : Timeouts → Watch → (now last wake_ms : ℕ) → Check
check_half_close t w now last wake_ms =
    if ltb 0 t.half_close_secs && (w.up_done || w.down_done)
    then (let since = get_or_insert w.half_close_since now in
        let left = saturating_sub (saturating_add (max since last) (half_close_ms t)) now in
        if left == 0
        then stop half_close_timeout true
        else wait (record w { half_close_since = some since }) (min wake_ms left))
    else wait w wake_ms

unfoldable pub check : Timeouts → Watch → (now last : ℕ) → Check
unfolding check_half_close
check t w now last =
    if w.up_done && w.down_done
    then stop both_eof false
    else if ltb 0 t.idle_secs
    then (let left = saturating_sub (saturating_add last (idle_ms t)) now in
        if left == 0
        then stop idle_timeout true
        else check_half_close t w now last (min watchdog_tick left))
    else check_half_close t w now last watchdog_tick

-- The `select!`. The receiver's arm is disabled once the channel is closed.
unfoldable pub react : Watch → Event → Outcome
react w shutting_down = ended shutdown true
react w (received dir err) = if w.channel_open then ended reset true else running w
react w (received up eof) = running (if w.channel_open then record w { up_done = true } else w)
react w (received down eof) = running (if w.channel_open then record w { down_done = true } else w)
react w closed = running (record w { channel_open = false })
react w slept = running w

abbrev pub after_check : Check → Event → Outcome
after_check (stop reason cancelled) event = ended reason cancelled
after_check (wait w wake_ms) event = react w event

unfoldable pub turn : Timeouts → Watch → Turn → Outcome
unfolding check react
turn t w r = after_check (check t w r.now r.last) r.event

-- The loop from a state on, over the turns that the environment gives.
unfoldable pub resume : Timeouts → Outcome → List Turn → Outcome
resume t o [] = o
resume t (running w) (r ∷ rs) = resume t (turn t w r) rs
resume t (ended reason cancelled) (r ∷ rs) = ended reason cancelled

unfoldable pub watchdog : Timeouts → List Turn → Outcome
unfolding resume turn
watchdog t rs = resume t (running start) rs

-- ===== src/Proxy/Tcp/Relay.antt =====
-- src/proxy/tcp.rs, `relay`: the two copying tasks and the watchdog of one connection as one system.
-- They share the activity clock, the cancellation token and the channel of completions; a schedule
-- says which of them moves, and what its environment does then.
pub mod Sides
pub mod Completions
pub mod Wakes
pub mod Passes
pub mod Relaying
pub mod Closing
pub mod Tests
use oxiduct.Base.{
  ℕ, Bool, true, false, ◌&&◌, ◌||◌, List, [], ◌∷◌, ◌++◌, Option, none, some, if◌then◌else◌,
}
use oxiduct.Proxy.Tcp.{Dir, up, down, End}
use oxiduct.Proxy.Tcp.Copy
use oxiduct.Proxy.Tcp.Copy.{Pass, Flow, Copying}
use oxiduct.Proxy.Tcp.Copy.Stream.{then_input}
use oxiduct.Proxy.Tcp.Watchdog
use oxiduct.Proxy.Tcp.Watchdog.{
  Reason, Timeouts, Watch, Check, Outcome, shutting_down, received, closed, slept,
}

-- A copying task, with all bytes that its reader has given in the passes so far.
pub record Side : Type 0 where
  pub copying : Copying
  pub given : List ℕ

-- Where the watchdog is: at the top of its loop, in its `select!`, or returned.
pub data Watching : Type 0 where
  at_top selecting : Watch → Watching
  returned : Reason → Watching

pub record Relay : Type 0 where
  pub up_side : Side
  pub down_side : Side
  -- The chunk of a task that has recorded its activity and waits for its writer.
  pub up_chunk : Option (List ℕ)
  pub down_chunk : Option (List ℕ)
  pub channel : List (Dir × End)
  pub last_activity : ℕ
  pub cancelled : Bool
  pub watch : Watching

-- What the `select!` of the watchdog finds ready.
pub data Ready : Type 0 where
  shutdown_ready channel_ready sleep_ready : Ready

pub data Move : Type 0 where
  -- A copying task reads a chunk at a time, and waits for its writer; the pass, or what is left of
  -- it, ends; the watchdog's checks at a time, and the end of its wait.
  reads : Dir → (now : ℕ) → (chunk : List ℕ) → Move
  passes : Dir → Pass → Move
  checks : (now : ℕ) → Move
  wakes : Ready → Move

unfoldable pub start : ℕ → Relay
start now = record {
  up_side = record { copying = Copying.running (Copy.start now); given = [] };
  down_side = record { copying = Copying.running (Copy.start now); given = [] };
  up_chunk = none;
  down_chunk = none;
  channel = [];
  last_activity = now;
  cancelled = false;
  watch = at_top Watchdog.start;
}

-- A task sees the cancellation only once the token is cancelled.
abbrev pub under : Bool → Pass → Pass
under cancelled p = record p {
  cancelled = p.cancelled && cancelled;
  cancelled_writing = p.cancelled_writing && cancelled;
}

-- The bytes that the reader gives in a pass.
abbrev pub gives : Pass → List ℕ
gives p = if p.cancelled then [] else then_input p.read []

abbrev pub flow : Copying → Flow
flow (Copying.running f) = f
flow (Copying.finished f end) = f

-- The completion that a pass reports, if it leaves the loop.
abbrev pub reports : Dir → Copying → List (Dir × End)
reports dir (Copying.running f) = []
reports dir (Copying.finished f end) = (dir, end) ∷ []

abbrev pub side : Relay → Dir → Side
side s up = s.up_side
side s down = s.down_side

abbrev pub with_side : Relay → Dir → Side → Relay
with_side s up x = record s { up_side = x }
with_side s down x = record s { down_side = x }

-- The copying task of a side after a pass, from the shared clock on.
unfoldable pub moved : Relay → Dir → Flow → Pass → Relay
moved s dir f p =
    let next = Copy.pass (record f { last_activity = s.last_activity }) p in
    record (with_side s dir (record { copying = next; given = (side s dir).given ++ gives p })) {
      channel = s.channel ++ reports dir next;
      last_activity = (flow next).last_activity;
    }

-- A task that has left its loop has no further pass.
unfoldable pub copy_step : Relay → Dir → Copying → Pass → Relay
unfolding moved
copy_step s dir (Copying.running f) p = moved s dir f (under s.cancelled p)
copy_step s dir (Copying.finished f end) p = s

abbrev pub is_over : Copying → Bool
is_over (Copying.running f) = false
is_over (Copying.finished f end) = true

abbrev pub chunk_of : Relay → Dir → Option (List ℕ)
chunk_of s up = s.up_chunk
chunk_of s down = s.down_chunk

abbrev pub with_chunk : Relay → Dir → Option (List ℕ) → ℕ → Relay
with_chunk s up o last = record s { up_chunk = o; last_activity = last }
with_chunk s down o last = record s { down_chunk = o; last_activity = last }

-- The first part of a pass: the watchdog sees the activity while the write is under way.
unfoldable pub read_step : Relay → Dir → Copying → Option (List ℕ) → ℕ → List ℕ → Relay
read_step s dir (Copying.running f) none now (b ∷ bs) = with_chunk s dir (some (b ∷ bs)) now
read_step s dir c o now chunk = s

-- The rest of the pass of a chunk: a cancellation is now seen by the write.
abbrev pub writing : List ℕ → Pass → Pass
writing chunk p = record p {
  cancelled = false;
  read = some chunk;
  cancelled_writing = p.cancelled || p.cancelled_writing;
}

-- A pass as a whole, or the rest of one, whose activity has been recorded before.
unfoldable pub pass_step : Relay → Dir → Option (List ℕ) → Pass → Relay
unfolding copy_step
pass_step s dir none p = copy_step s dir (side s dir).copying p
pass_step s dir (some chunk) p =
    with_chunk (copy_step s dir (side s dir).copying (writing chunk p)) dir none s.last_activity

-- `recv`: a completion, or the end of the channel once both senders are gone; else nothing is
-- ready, and the wait ends by the sleep.
unfoldable pub receive : Relay → List (Dir × End) → Watchdog.Event
receive s ((dir, end) ∷ rest) = received dir end
receive s [] = if is_over s.up_side.copying && is_over s.down_side.copying then closed else slept

unfoldable pub event : Relay → Ready → Watchdog.Event
unfolding receive
event s shutdown_ready = shutting_down
event s channel_ready = receive s s.channel
event s sleep_ready = slept

abbrev pub tail : List (Dir × End) → List (Dir × End)
tail [] = []
tail (x ∷ xs) = xs

abbrev pub left_over : Ready → List (Dir × End) → List (Dir × End)
left_over channel_ready xs = tail xs
left_over r xs = xs

-- What the checks come to: the wait, or the end and whether it cancels the token.
abbrev pub checked : Relay → Check → Relay
checked s (Check.stop reason cancelled) = record s {
  watch = returned reason;
  cancelled = s.cancelled || cancelled;
}
checked s (Check.wait w wake_ms) = record s { watch = selecting w }

abbrev pub reacted : Relay → Outcome → Relay
reacted s (Outcome.running w) = record s { watch = at_top w }
reacted s (Outcome.ended reason cancelled) = record s {
  watch = returned reason;
  cancelled = s.cancelled || cancelled;
}

unfoldable pub check_step : Timeouts → Relay → Watching → ℕ → Relay
check_step t s (at_top w) now = checked s (Watchdog.check t w now s.last_activity)
check_step t s (selecting w) now = s
check_step t s (returned reason) now = s

unfoldable pub wake_step : Relay → Watching → Ready → Relay
unfolding event
wake_step s (at_top w) ready = s
wake_step s (selecting w) ready = record (reacted s (Watchdog.react w (event s ready))) {
  channel = left_over ready s.channel;
}
wake_step s (returned reason) ready = s

unfoldable pub step : Timeouts → Relay → Move → Relay
unfolding read_step pass_step check_step wake_step
step t s (reads dir now chunk) = read_step s dir (side s dir).copying (chunk_of s dir) now chunk
step t s (passes dir p) = pass_step s dir (chunk_of s dir) p
step t s (checks now) = check_step t s s.watch now
step t s (wakes ready) = wake_step s s.watch ready

unfoldable pub run : Timeouts → Relay → List Move → Relay
unfolding step
run t s [] = s
run t s (m ∷ ms) = run t (step t s m) ms

abbrev pub joined : Watching → Copying → Copying → Option (Reason × ℕ × ℕ)
joined (returned reason) (Copying.finished f e) (Copying.finished g d) =
    some (reason, f.total, g.total)
joined w a b = none

-- `relay` returns once the watchdog has returned and both tasks have been joined: the reason, and
-- the totals of both directions.
abbrev pub result : Relay → Option (Reason × ℕ × ℕ)
result s = joined s.watch s.up_side.copying s.down_side.copying

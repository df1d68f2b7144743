-- ===== src/Proxy/Tcp/Relay/Tests.antt =====
-- Relays at concrete schedules.
use oxiduct.Base.{ℕ, ◌≡◌, ◌≢◌, refl, true, false, List, [], ◌∷◌, none, some, take}
use oxiduct.Proxy.Tcp.{up, down}
use oxiduct.Proxy.Tcp.Copy.{Pass, pass}
use oxiduct.Proxy.Tcp.Watchdog.{Timeouts, both_eof, idle_timeout, reset, check, react}
use oxiduct.Proxy.Tcp.Relay
use oxiduct.Proxy.Tcp.Relay.{
  Move, passes, checks, wakes, channel_ready, sleep_ready, returned, start, step, run, result, flow,
}
use oxiduct.Proxy.Tcp.Relay.Closing.{run-Delivered, Delivered, result-ne-none}

abbrev pub timeouts : Timeouts
timeouts = record { idle_secs = 300; half_close_secs = 30 }

-- A pass in which the reader gives something and the writer takes it.
abbrev pub reads : List ℕ → Pass
reads bytes = record {
  cancelled = false;
  read = some bytes;
  now = 7;
  cancelled_writing = false;
  write_ok = true;
  taken = 0;
}

-- A request and its answer, and both ends in turn.
abbrev pub exchange : List Move
exchange =
    passes up (reads (104 ∷ 105 ∷ []))
    ∷ checks 8
    ∷ passes down (reads (111 ∷ []))
    ∷ passes up (reads [])
    ∷ wakes channel_ready
    ∷ checks 9
    ∷ passes down (reads [])
    ∷ wakes channel_ready
    ∷ checks 10
    ∷ []

-- Nothing moves for the idle timeout, and then both tasks see the cancellation.
abbrev silence : List Move
silence = checks 0 ∷ wakes sleep_ready ∷ checks 300000 ∷ []

abbrev cancelled : Pass
cancelled = record (reads []) { cancelled = true }

relays : Unit {0}
unfolding start run pass check react Relay.read_step Relay.pass_step
relays = tt

exchange_ends : result (run timeouts (start 0) exchange) ≡ some (both_eof, 2, 1)
unfolding relays
exchange_ends = refl

silence_ends :
    result (
      step timeouts
        (step timeouts (run timeouts (start 0) silence) (passes up cancelled))
        (passes down cancelled))
    ≡ some (idle_timeout, 0, 0)
unfolding relays
silence_ends = refl

-- The watchdog sees the activity of a read while its write is under way, and the write sees the
-- cancellation, with the first byte taken.
abbrev slow_write : List Move
slow_write =
    Relay.reads up 200000 (104 ∷ 105 ∷ [])
    ∷ checks 300000
    ∷ wakes sleep_ready
    ∷ checks 500000
    ∷ passes up (record cancelled { taken = 1 })
    ∷ passes down cancelled
    ∷ []

slow_write_ends :
    ((run timeouts (start 0) (take 2 slow_write)).last_activity ≡ 200000)
    × (result (run timeouts (start 0) (take 4 slow_write)) ≡ none)
    × (result (run timeouts (start 0) slow_write) ≡ some (idle_timeout, 0, 0))
    × ((flow (run timeouts (start 0) slow_write).up_side.copying).sent ≡ 104 ∷ [])
unfolding relays
slow_write_ends = (refl, refl, refl, refl)

-- A read error of one side ends the other.
broken_ends :
    (run timeouts
      (start 0)
      (passes up (record (reads []) { read = none }) ∷ checks 8 ∷ wakes channel_ready ∷ [])).watch
    ≡ returned reset
unfolding relays
broken_ends = refl

run-Delivered_example :
    Delivered (run timeouts (start 0) exchange).up_side
    × Delivered (run timeouts (start 0) exchange).down_side
unfolding relays
run-Delivered_example = run-Delivered timeouts 0 exchange refl

result-ne-none_example :
    result (
      step timeouts
        (step timeouts (run timeouts (start 0) silence) (passes up cancelled))
        (passes down cancelled))
    ≢ none
unfolding relays
result-ne-none_example =
    result-ne-none timeouts 0 silence idle_timeout cancelled cancelled refl refl refl

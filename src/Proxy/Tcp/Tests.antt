-- ===== src/Proxy/Tcp/Tests.antt =====
-- The watchdog and the copy loop at concrete runs.
use mathlib.Core.List.{Memᴰ}
use oxiduct.Base.{
  ℕ, ◌≡◌, ◌+◌, ◌%◌, length, ◌*◌, ◌≤◌, inl, inr, refl, true, false, List, [], ◌∷◌, ◌++◌, some, arith,
}
use oxiduct.Base.Words.{u64_mod}
use oxiduct.Proxy.Tcp.{up, eof}
use oxiduct.Proxy.Tcp.Copy.{Pass, Flow, copy_dir}
use oxiduct.Proxy.Tcp.Copy.Stream.{copy_dir-sent, input, sum}
use oxiduct.Proxy.Tcp.Copy.Ends.{copy_dir-IsOver, copy_dir-err, Fails}
use oxiduct.Proxy.Tcp.Copy.Ends
use oxiduct.Proxy.Tcp.Watchdog.{
  start, Timeouts, Turn, ended, slept, received, half_close_timeout, idle_timeout, watchdog, check,
  sleep_ms,
}
use oxiduct.Proxy.Tcp.Watchdog.Deadlines.{Justified, check-stop, check-wait}
use oxiduct.Proxy.Tcp.Watchdog.Outcomes.{watchdog-Cause, Cause}
use oxiduct.Proxy.Tcp.Watchdog.Liveness.{watchdog-IsOver, IsOver}

abbrev timeouts : Timeouts
timeouts = record { idle_secs = 300; half_close_secs = 30 }

-- The client shuts its side at once and the target stays silent.
abbrev half_closed : List Turn
half_closed =
    record { now = 1000; last = 1000; event = received up eof }
    ∷ record { now = 1010; last = 1000; event = slept }
    ∷ record { now = 31010; last = 1000; event = slept }
    ∷ []

-- Nothing moves at all.
abbrev silent : List Turn
silent =
    record { now = 0; last = 0; event = slept }
    ∷ record { now = 300000; last = 0; event = slept }
    ∷ []

half_closed_ends : watchdog timeouts half_closed ≡ ended half_close_timeout true
unfolding watchdog
half_closed_ends = refl

silent_ends : watchdog timeouts silent ≡ ended idle_timeout true
unfolding watchdog
silent_ends = refl

idle_stop : Justified timeouts start 300000 0 idle_timeout true
unfolding check
idle_stop = check-stop timeouts start 300000 0 idle_timeout true (omega arith) refl

watchdog-Cause_example : Cause timeouts half_closed half_close_timeout
watchdog-Cause_example =
    (watchdog-Cause timeouts half_closed half_close_timeout true (omega arith) half_closed_ends).0

watchdog-IsOver_example : IsOver (watchdog timeouts silent)
watchdog-IsOver_example =
    watchdog-IsOver timeouts silent (_, Memᴰ.tail (Memᴰ.head refl), inl (omega arith))

check-wait_example : 1000 + sleep_ms 5000 ≤ 1000 + 300 * 1000 + 20
unfolding check
check-wait_example = (check-wait timeouts start start 1000 1000 5000 refl).1 (omega arith)

abbrev data_pass : Pass
data_pass = record {
  cancelled = false;
  read = some (104 ∷ 105 ∷ []);
  now = 7;
  cancelled_writing = false;
  write_ok = true;
  taken = 0;
}

abbrev eof_pass : Pass
eof_pass = record data_pass { read = some [] }

abbrev broken_pass : Pass
broken_pass = record data_pass { write_ok = false; taken = 1 }

abbrev relayed : Flow
relayed = record { total = 2; last_activity = 7; sent = 104 ∷ 105 ∷ []; shut = true; incs = 2 ∷ [] }

abbrev broken : Flow
broken = record {
  total = 2;
  last_activity = 7;
  sent = 104 ∷ 105 ∷ 104 ∷ [];
  shut = false;
  incs = 2 ∷ [];
}

copy_dir-sent_example :
    (unsent : List ℕ) × (relayed.sent ++ unsent ≡ input (data_pass ∷ eof_pass ∷ []))
    × (relayed.shut ≡ true → unsent ≡ [])
    × (relayed.total ≡ sum relayed.incs % u64_mod)
    × (sum relayed.incs ≤ length relayed.sent)
    × (relayed.shut ≡ true → sum relayed.incs ≡ length relayed.sent)
unfolding copy_dir
copy_dir-sent_example = copy_dir-sent 0 (data_pass ∷ eof_pass ∷ []) relayed eof refl

last_pass-IsOver : Ends.IsOver (copy_dir 0 (data_pass ∷ eof_pass ∷ []))
last_pass-IsOver =
    copy_dir-IsOver 0 (data_pass ∷ eof_pass ∷ []) eof_pass (Memᴰ.tail (Memᴰ.head refl))
      (inr (inl refl))

broken_pass_found : (p : Pass) × Memᴰ p (data_pass ∷ broken_pass ∷ []) × Fails p
unfolding copy_dir
broken_pass_found = copy_dir-err 0 (data_pass ∷ broken_pass ∷ []) broken refl

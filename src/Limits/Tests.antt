-- ===== src/Limits/Tests.antt =====
-- The limiter at concrete inputs.
use oxiduct.Base.{◌*◌, ◌≤◌, ◌≡◌, ◌↔◌, refl, inl, inr, true, List, [], ◌∷◌, arith, ℕ_discrete}
use oxiduct.Net.{IpAddr, v4, IpAddr-discrete}
use oxiduct.Limits.{
  total, per_ip, rejected, near_total, near_per_ip, new, try_acquire, drop, reached_90pct,
}
use oxiduct.Limits.Lifetimes.{Op, connect, close, Inv, fresh, run, run-new-Inv, count}
use oxiduct.Limits.Verdict.{
  try_acquire-verdict, reached_90pct_iff, drop-try_acquire, reason, verdict,
}
use oxiduct.Limits.Warnings.{
  run_log, total_lines, total_lines-run_log, latch, ever_near_cap, per_ip_lines,
  per_ip_lines-try_acquire,
}
use oxiduct.Base.Map.{insert, remove}
use mathlib.Core.List.{lookup}

abbrev alice : IpAddr
alice = v4 (record { a = 10; b = 0; c = 0; d = 1 })

abbrev bob : IpAddr
bob = v4 (record { a = 10; b = 0; c = 0; d = 2 })

abbrev history : List Op
history = connect alice ∷ connect alice ∷ connect bob ∷ close 2 ∷ connect bob ∷ []

limiter : Unit {0}
unfolding run run_log try_acquire drop new reached_90pct insert remove lookup IpAddr-discrete
    ℕ_discrete count
limiter = tt

-- Two slots in all, one for each address: the second of one address is refused.
refused : (try_acquire (run (fresh 2 1) (connect alice ∷ [])).limits alice).1 ≡ rejected per_ip
unfolding limiter
refused = refl

full : (try_acquire (run (fresh 1 0) (connect alice ∷ [])).limits bob).1 ≡ rejected total
unfolding limiter
full = refl

released : (run (fresh 1 0) (connect alice ∷ close 0 ∷ [])).limits.state.per_ip ≡ []
unfolding limiter
released = refl

logged : run_log (fresh 2 0) history ≡ near_total 2 2 ∷ []
unfolding limiter
logged = refl

run-new-Inv_example : Inv (run (fresh 3 2) history)
run-new-Inv_example = run-new-Inv 3 2 history (inl (omega arith))

try_acquire-verdict_example :
    reason (try_acquire (run (fresh 3 2) history).limits alice).1
    ≡ verdict
        (run (fresh 3 2) history).limits.max_total
        (run (fresh 3 2) history).limits.max_per_ip
        (run (fresh 3 2) history).guards
        alice
try_acquire-verdict_example =
    (try_acquire-verdict (run (fresh 3 2) history) alice run-new-Inv_example).0

exact_90pct : (reached_90pct 90 100 ≡ true) ↔ (9 * 100 ≤ 10 * 90)
exact_90pct = reached_90pct_iff 90 100 (omega arith) (omega arith)

drop-try_acquire_example :
    (drop (try_acquire (fresh 3 2).limits alice).0 (record { src_ip = alice })).state.total
    ≡ (fresh 3 2).limits.state.total
unfolding limiter
drop-try_acquire_example =
    (drop-try_acquire (fresh 3 2) alice (record { src_ip = alice }) []
      (run-new-Inv 3 2 [] (inl (omega arith))) (inl (omega arith)) refl).0

total_lines-run_log_example :
    total_lines (run_log (fresh 2 0) history) ≡ latch (ever_near_cap (fresh 2 0) history)
total_lines-run_log_example = total_lines-run_log 2 0 history (omega arith) (omega arith)

one_line : per_ip_lines (near_per_ip alice 1 1 ∷ []) ≡ 1
unfolding limiter
one_line =
    (per_ip_lines-try_acquire (fresh 0 1) alice (record { src_ip = alice })
      (near_per_ip alice 1 1 ∷ []) (run-new-Inv 0 1 [] (inr (omega arith))) (omega arith) refl refl
      refl).0

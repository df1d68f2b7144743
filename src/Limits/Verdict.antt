-- ===== src/Limits/Verdict.antt =====
-- src/limits.rs: the decision of `try_acquire`, and what a slot that is taken and given back leaves.
use mathlib.Core.Path.{subst}
use oxiduct.Base.{
  ℕ, ◌*◌, ◌≤◌, ◌<◌, ◌≡◌, ◌↔◌, refl, sym, ◌∙◌, true, List, ◌∷◌, Option, none, some, arith, length,
  ltb, leb, ◌&&◌, if◌then◌else◌,
}
use oxiduct.Base.Words.{u32_mod}
use oxiduct.Net.{IpAddr}
use oxiduct.Limits.{
  Guard, Admission, admitted, rejected, Reject, total, per_ip, Warning, admit, try_acquire, drop,
  lookup_ip, reached_90pct,
}
use oxiduct.Limits.Lifetimes.{
  Snapshot, Inv, count, counts_lem, entry_count, HasRoom, connect, step, step-Inv, close-Inv,
  granted,
}

-- What a limiter owes its callers, from the live guards alone: the total cap is looked at first.
abbrev pub verdict : (max_total max_per_ip : ℕ) → List Guard → IpAddr → Option Reject
verdict max_total max_per_ip guards ip =
    if ltb 0 max_total && leb max_total (length guards)
    then some total
    else if ltb 0 max_per_ip && leb max_per_ip (count ip guards)
    then some per_ip
    else none

abbrev pub reason : Admission → Option Reject
reason (admitted g warnings) = none
reason (rejected r) = some r

-- On a limiter whose counters are those of the live guards, `try_acquire` rejects for the total cap
-- exactly when it is enabled and reached, else for the per-address cap exactly when that is enabled
-- and reached, and admits otherwise; a rejection leaves the limiter unchanged.
pub try_acquire-verdict :
    (s : Snapshot) (ip : IpAddr)
    → Inv s
    → (reason (try_acquire s.limits ip).1
        ≡ verdict s.limits.max_total s.limits.max_per_ip s.guards ip)
      × ((r : Reject)
          → (try_acquire s.limits ip).1 ≡ rejected r
          → (try_acquire s.limits ip).0 ≡ s.limits)
unfolding try_acquire admit
try_acquire-verdict s ip v = (ground (arith, counts_lem s ip v), λ r e. ground arith)

-- For 32-bit arguments the 64-bit products do not overflow: the test is the exact comparison with
-- nine tenths of the cap.
pub reached_90pct_iff :
    (used cap : ℕ)
    → used < u32_mod
    → cap < u32_mod
    → (reached_90pct used cap ≡ true) ↔ (9 * cap ≤ 10 * used)
unfolding reached_90pct
reached_90pct_iff used cap hu hc = ground arith

-- After a slot is taken and given back, on a limiter that counts its live guards and has room for one
-- more, the total is what it was, and so is the count of every address, an absent entry included.
pub drop-try_acquire :
    (s : Snapshot) (ip : IpAddr) (g : Guard) (ws : List Warning)
    → Inv s
    → HasRoom s
    → (try_acquire s.limits ip).1 ≡ admitted g ws
    → let after = drop (try_acquire s.limits ip).0 g in
      (after.state.total ≡ s.limits.state.total)
      × ((j : IpAddr)
          → entry_count (lookup_ip j after.state.per_ip)
            ≡ entry_count (lookup_ip j s.limits.state.per_ip))
unfolding step
drop-try_acquire s ip g ws v room e =
    (omega (arith, after.total, v.total), λ j. after.entry j ∙ sym (v.entry j))
  where
    taken : Inv (record { limits = (try_acquire s.limits ip).0; guards = g ∷ s.guards })
    taken =
        subst
          (λ a. Inv (record { limits = (try_acquire s.limits ip).0; guards = granted a s.guards }))
          e (step-Inv s (connect ip) room v)

    after : Inv (record { limits = drop (try_acquire s.limits ip).0 g; guards = s.guards })
    after = close-Inv _ 0 g refl taken

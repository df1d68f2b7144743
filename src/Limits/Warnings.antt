-- ===== src/Limits/Warnings.antt =====
-- src/limits.rs: when the two near-limit warnings are logged.
use oxiduct.Base.{
  ℕ, ◌+◌, ◌*◌, ◌<◌, ◌≡◌, refl, Bool, true, false, List, [], ◌∷◌, Option, inl, inr, ap, ◌∙◌, none,
  some, arith, length, leb, ◌||◌, ◌++◌,
}
use oxiduct.Net.{IpAddr}
use oxiduct.Limits.{
  IpStat, Guard, Admission, admitted, rejected, Warning, near_total, near_per_ip, new, admit,
  try_acquire, drop, lookup_ip, reached_90pct, limit,
}
use oxiduct.Base.Words.{u32_mod}
use oxiduct.Limits.Lifetimes.{
  Snapshot, Op, connect, close, step, run, Inv, step-Inv, counts_lem, step-max_total,
  length-remove_at-le, fresh, new-Inv, count, tracked, entry_count,
}
use oxiduct.Limits.Verdict.{reached_90pct_iff, drop-try_acquire}

abbrev warnings_of : Admission → List Warning
warnings_of (admitted g ws) = ws
warnings_of (rejected r) = []

-- The lines that one operation logs.
abbrev pub step_log : Snapshot → Op → List Warning
step_log s (connect ip) = warnings_of (try_acquire s.limits ip).1
step_log s (close i) = []

-- The lines that a history logs, in order.
unfoldable pub run_log : Snapshot → List Op → List Warning
run_log s [] = []
run_log s (op ∷ ops) = step_log s op ++ run_log (step s op) ops

abbrev is_near_total : Warning → ℕ
is_near_total (near_total used limit) = 1
is_near_total (near_per_ip ip used limit) = 0

-- How many lines of a log are about the total cap.
abbrev pub total_lines : List Warning → ℕ
total_lines [] = 0
total_lines (w ∷ ws) = is_near_total w + total_lines ws

total_lines-append :
    (xs ys : List Warning) → total_lines (xs ++ ys) ≡ total_lines xs + total_lines ys
total_lines-append [] ys = omega arith
total_lines-append (x ∷ xs) ys = omega (arith, total_lines-append xs ys)

abbrev pub latch : Bool → ℕ
latch true = 1
latch false = 0

latch-step :
    (s : Snapshot) (op : Op)
    → latch s.limits.state.total_warned + total_lines (step_log s op)
      ≡ latch (step s op).limits.state.total_warned
unfolding step try_acquire admit drop
latch-step s (connect ip) = ground arith
latch-step s (close i) = ground arith

latch-run :
    (s : Snapshot) (ops : List Op)
    → latch s.limits.state.total_warned + total_lines (run_log s ops)
      ≡ latch (run s ops).limits.state.total_warned
unfolding run run_log
latch-run s [] = omega arith
latch-run s (op ∷ ops) = omega (
  arith,
  latch-step s op,
  latch-run (step s op) ops,
  total_lines-append (step_log s op) (run_log (step s op) ops),
)

-- The live guards stand at nine tenths of the total cap or above.
abbrev pub near_cap : Snapshot → Bool
near_cap s = leb (9 * s.limits.max_total) (10 * length s.guards)

-- They do at some moment of the history.
abbrev pub ever_near_cap : Snapshot → List Op → Bool
ever_near_cap s [] = near_cap s
ever_near_cap s (op ∷ ops) = near_cap s || ever_near_cap (step s op) ops

-- A total cap that is enabled and fits in 32 bits, with the latch set whenever it is near.
record IsLatched (s : Snapshot) : Type 0 where
  counted : Inv s
  capped : (0 < s.limits.max_total) × (s.limits.max_total < u32_mod)
  latched : near_cap s ≡ true → s.limits.state.total_warned ≡ true

connect_latched :
    (s : Snapshot) (ip : IpAddr)
    → IsLatched s
    → (step s (connect ip)).limits.state.total_warned
      ≡ (s.limits.state.total_warned || near_cap (step s (connect ip)))
unfolding step try_acquire admit
connect_latched s ip v = ground (
  arith,
  counts_lem s ip v.counted,
  v.capped,
  v.latched,
  reached_90pct_iff (length s.guards + 1) s.limits.max_total,
)

close_latched :
    (s : Snapshot) (i : ℕ)
    → IsLatched s
    → (step s (close i)).limits.state.total_warned
      ≡ (s.limits.state.total_warned || near_cap (step s (close i)))
unfolding step drop
close_latched s i v = ground (arith, v.latched, length-remove_at-le i s.guards)

step_latched :
    (s : Snapshot) (op : Op)
    → IsLatched s
    → (step s op).limits.state.total_warned ≡ (s.limits.state.total_warned || near_cap (step s op))
step_latched s (connect ip) v = connect_latched s ip v
step_latched s (close i) v = close_latched s i v

step-IsLatched : (s : Snapshot) (op : Op) → IsLatched s → IsLatched (step s op)
step-IsLatched s op v = record {
  counted = step-Inv s op (inl v.capped) v.counted;
  capped = omega (arith, step-max_total s op, v.capped);
  latched = λ near. ground (arith, step_latched s op v);
}

ever_near_cap_now : (s : Snapshot) (ops : List Op) → near_cap s ≡ true → ever_near_cap s ops ≡ true
ever_near_cap_now s [] h = h
ever_near_cap_now s (op ∷ ops) h = rw h

run_latched :
    (s : Snapshot) (ops : List Op)
    → IsLatched s
    → (run s ops).limits.state.total_warned ≡ (s.limits.state.total_warned || ever_near_cap s ops)
unfolding run
run_latched s [] v = ground (arith, v.latched)
run_latched s (op ∷ ops) v = ground (
  arith,
  v.latched,
  step_latched s op v,
  ever_near_cap_now (step s op) ops,
  run_latched (step s op) ops (step-IsLatched s op v),
)

-- A limiter with an enabled 32-bit total cap logs the warning on that cap exactly once if at some
-- moment of its history the live guards stand at nine tenths of the cap or above, and never
-- otherwise.
pub total_lines-run_log :
    (max_total max_per_ip : ℕ) (ops : List Op)
    → 0 < max_total
    → max_total < u32_mod
    → total_lines (run_log (fresh max_total max_per_ip) ops)
      ≡ latch (ever_near_cap (fresh max_total max_per_ip) ops)
unfolding new
total_lines-run_log max_total max_per_ip ops pos small =
    ground (arith, latch-run s ops, run_latched s ops start)
  where
    s : Snapshot
    s = fresh max_total max_per_ip

    start : IsLatched s
    start = record {
      counted = new-Inv max_total max_per_ip;
      capped = (pos, small);
      latched = λ near. absurd (ground arith);
    }

abbrev is_near_per_ip : Warning → ℕ
is_near_per_ip (near_total used limit) = 0
is_near_per_ip (near_per_ip ip used limit) = 1

-- How many lines of a log are about a per-address cap.
abbrev pub per_ip_lines : List Warning → ℕ
per_ip_lines [] = 0
per_ip_lines (w ∷ ws) = is_near_per_ip w + per_ip_lines ws

no_entry : (o : Option IpStat) → entry_count o ≡ tracked 0 → o ≡ none
no_entry none e = refl
no_entry (some st) e = cc

-- With a per-address cap of 1, every connection that is admitted from an address with no live guard
-- logs a per-address warning, and when it closes the address has no entry again: the latch is gone,
-- and the next such connection logs another.
pub per_ip_lines-try_acquire :
    (s : Snapshot) (ip : IpAddr) (g : Guard) (ws : List Warning)
    → Inv s
    → length s.guards + 1 < u32_mod
    → count ip s.guards ≡ 0
    → s.limits.max_per_ip ≡ 1
    → (try_acquire s.limits ip).1 ≡ admitted g ws
    → (per_ip_lines ws ≡ 1)
      × (lookup_ip ip (drop (try_acquire s.limits ip).0 g).state.per_ip ≡ none)
unfolding try_acquire admit reached_90pct
per_ip_lines-try_acquire s ip g ws v room none_live one e =
    (ground (arith, absent), no_entry _ ((drop-try_acquire s ip g ws v (inr room) e).1 ip ∙ empty))
  where
    empty : entry_count (lookup_ip ip s.limits.state.per_ip) ≡ tracked 0
    empty = v.entry ip ∙ ap tracked none_live

    absent : lookup_ip ip s.limits.state.per_ip ≡ none
    absent = no_entry _ empty

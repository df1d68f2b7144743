-- ===== src/Clock/Elapsed.antt =====
-- src/clock.rs: what the clock returns against the time between its readings.
use oxiduct.Base.{
  ℕ, ◌+◌, ◌-◌, ◌*◌, ◌/◌, ◌%◌, ◌^◌, ◌≤◌, ◌<◌, ◌≡◌, true, false, List, [], ◌∷◌, none, some, arith,
}
use oxiduct.Clock.{Call, returns}

-- The readings never go back, from one on, and stay below a bound.
abbrev pub IsMonotonic : ℕ → ℕ → List Call → Type 0
IsMonotonic bound from [] = Unit
IsMonotonic bound from (c ∷ cs) =
    (from ≤ c.for_origin)
    × (c.for_origin ≤ c.for_elapsed)
    × (c.for_elapsed < bound)
    × IsMonotonic bound c.for_elapsed cs

-- Between two calls the clock goes on by the time between their readings, to within a millisecond,
-- and never back.
abbrev pub Measures : Call → ℕ → Call → ℕ → Type 0
Measures c t d u =
    (t ≤ u)
    × (u * 1000000 < t * 1000000 + (d.for_elapsed - c.for_elapsed) + 1000000)
    × (t * 1000000 + (d.for_elapsed - c.for_elapsed) < u * 1000000 + 1000000)

abbrev pub MeasuresAll : Call → ℕ → List Call → List ℕ → Type 0
MeasuresAll c t [] [] = Unit
MeasuresAll c t (d ∷ ds) (u ∷ us) = Measures c t d u × MeasuresAll c t ds us
MeasuresAll c t ds us = true ≡ false

-- Each call against each later one.
abbrev pub IsClock : List Call → List ℕ → Type 0
IsClock [] [] = Unit
IsClock (c ∷ cs) (t ∷ ts) = MeasuresAll c t cs ts × IsClock cs ts
IsClock cs ts = true ≡ false

abbrev since : ℕ → ℕ → ℕ
since origin instant = ((instant - origin) / 1000000) % 2 ^ 64

measures_lem :
    (origin : ℕ) (c d : Call)
    → origin ≤ c.for_elapsed
    → c.for_elapsed ≤ d.for_elapsed
    → d.for_elapsed < origin + 1000000 * 2 ^ 64
    → Measures c (since origin c.for_elapsed) d (since origin d.for_elapsed)
measures_lem origin c d h k b = omega arith

later_lem :
    (origin : ℕ) (c : Call) (from : ℕ) (ds : List Call)
    → origin ≤ c.for_elapsed
    → c.for_elapsed ≤ from
    → IsMonotonic (origin + 1000000 * 2 ^ 64) from ds
    → MeasuresAll c (since origin c.for_elapsed) ds (returns (some origin) ds)
unfolding returns
later_lem origin c from [] h k m = tt
later_lem origin c from (d ∷ ds) h k (a, e, b, m) = (
  measures_lem origin c d h (omega (arith, k, a, e)) b,
  later_lem origin c d.for_elapsed ds h (omega (arith, k, a, e)) m,
)

clock_lem :
    (origin from : ℕ) (cs : List Call)
    → origin ≤ from
    → IsMonotonic (origin + 1000000 * 2 ^ 64) from cs
    → IsClock cs (returns (some origin) cs)
unfolding returns
clock_lem origin from [] h m = tt
clock_lem origin from (c ∷ cs) h (a, e, b, m) =
    let k : origin ≤ c.for_elapsed = omega (arith, h, a, e) in
    (later_lem origin c c.for_elapsed cs k (omega arith) m, clock_lem origin c.for_elapsed cs k m)

-- As long as the readings never go back and stay below 2^64 milliseconds from the first one, any
-- two calls, also those with the first, return values that are apart by the time between their
-- readings to within a millisecond, the later value being no smaller.
pub returns-IsClock :
    (c : Call) (cs : List Call)
    → IsMonotonic (c.for_origin + 1000000 * 2 ^ 64) 0 (c ∷ cs)
    → IsClock (c ∷ cs) (returns none (c ∷ cs))
unfolding returns
returns-IsClock c cs (a, e, b, m) = (
  later_lem c.for_origin c c.for_elapsed cs e (omega arith) m,
  clock_lem c.for_origin c.for_elapsed cs e m,
)

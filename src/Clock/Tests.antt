-- ===== src/Clock/Tests.antt =====
-- The clock at concrete readings.
use oxiduct.Base.{◌≡◌, refl, List, [], ◌∷◌, none, arith}
use oxiduct.Clock.{Call, returns}
use oxiduct.Clock.Elapsed.{IsClock, returns-IsClock}

abbrev first : Call
first = record { for_origin = 7000000; for_elapsed = 7000100 }

abbrev later : List Call
later =
    record { for_origin = 8999999; for_elapsed = 8999999 }
    ∷ record { for_origin = 12000000; for_elapsed = 12000000 }
    ∷ []

later_values : returns none (first ∷ later) ≡ 0 ∷ 1 ∷ 5 ∷ []
unfolding returns
later_values = refl

returns-IsClock_example : IsClock (first ∷ later) (returns none (first ∷ later))
returns-IsClock_example = returns-IsClock first later (
  omega arith,
  omega arith,
  omega arith,
  (omega arith, omega arith, omega arith, (omega arith, omega arith, omega arith, tt)),
)

-- ===== src/Clock.antt =====
-- src/clock.rs: the clock of the timers. The readings of std's `Instant` are an input, in
-- nanoseconds.
pub mod Elapsed
mod Tests
use oxiduct.Base.{ℕ, ◌-◌, ◌/◌, ◌%◌, List, [], ◌∷◌, Option, none, some}
use oxiduct.Base.Words.{u64_mod}

-- The two readings of a call: for the origin, used by the first call alone, and for `elapsed`.
pub record Call : Type 0 where
  pub for_origin : ℕ
  pub for_elapsed : ℕ

abbrev pub get_or_init : Option ℕ → ℕ → ℕ
get_or_init none instant = instant
get_or_init (some origin) instant = origin

-- The origin after the call, and what the call returns.
unfoldable pub now_ms : Option ℕ → Call → ℕ × ℕ
now_ms origin c =
    let from = get_or_init origin c.for_origin in
    (from, ((c.for_elapsed - from) / 1000000) % u64_mod)

-- What a sequence of calls returns.
unfoldable pub returns : Option ℕ → List Call → List ℕ
unfolding now_ms
returns origin [] = []
returns origin (c ∷ cs) = let (from, t) = now_ms origin c in t ∷ returns (some from) cs

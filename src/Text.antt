-- ===== src/Text.antt =====
-- Texts as lists of code points, with the operations of `str` that the program uses.
use Prim.Native.Char.{code}
use Prim.Native.String.{String}
use oxiduct.Base.{
  ℕ, zero, suc, ◌+◌, ◌-◌, ◌*◌, ◌/◌, ◌%◌, Bool, true, false, ◌&&◌, List, [], ◌∷◌, Option, none, some,
  ltb, leb, ◌==◌, if◌then◌else◌, ℕ_discrete,
}
use oxiduct.Base.Words.{u16_mod}

abbrev pub Text : Type 0
Text = List ℕ

abbrev pub codes : String → Text
codes String.[] = []
codes (String.◌∷◌ c s) = code c ∷ codes s

unfoldable pub Text-discrete : Discrete Text
unfolding ℕ_discrete
Text-discrete = hlevel ℕ_discrete

-- `rsplit_once`: the parts before and after the last occurrence of a character.
unfoldable pub rsplit_once : ℕ → Text → Option (Text × Text)
rsplit_once c [] = none
rsplit_once c (x ∷ xs) = elim (rsplit_once c xs) [
  | some (before, after) ↦ some (x ∷ before, after)
  | none ↦ if x == c then some ([], xs) else none
]

abbrev pub is_digit : ℕ → Bool
is_digit c = leb b'0' c && leb c b'9'

-- Decimal digits accumulated to a number below 2^16; none at another character or past the range.
unfoldable pub digits_from : ℕ → Text → Option ℕ
digits_from acc [] = some acc
digits_from acc (c ∷ cs) =
    let rest = digits_from (acc * 10 + (c - b'0')) cs in
    if is_digit c && ltb (acc * 10 + (c - b'0')) u16_mod then rest else none

abbrev pub nonempty_digits : Text → Option ℕ
nonempty_digits [] = none
nonempty_digits (c ∷ cs) = digits_from 0 (c ∷ cs)

-- `str::parse::<u16>`: an optional plus sign and at least one digit.
unfoldable pub parse_u16 : Text → Option ℕ
unfolding digits_from
parse_u16 [] = none
parse_u16 (c ∷ cs) = if c == b'+' then nonempty_digits cs else digits_from 0 (c ∷ cs)

-- A number in decimal, with fuel for its digits.
unfoldable pub decimal_from : ℕ → ℕ → Text → Text
decimal_from zero n acc = acc
decimal_from (suc fuel) n acc =
    let digit = b'0' + n % 10 in
    elim (ltb n 10) [ true ↦ digit ∷ acc | false ↦ decimal_from fuel (n / 10) (digit ∷ acc) ]

unfoldable pub decimal : ℕ → Text
unfolding decimal_from
decimal n = decimal_from (suc n) n []

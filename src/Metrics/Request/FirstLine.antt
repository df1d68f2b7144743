-- ===== src/Metrics/Request/FirstLine.antt =====
-- src/metrics.rs, `handle_request`: the lossy decoding at a newline, and the test of the first line.
use oxiduct.Base.{
  ℕ, ◌+◌, ◌-◌, ◌*◌, ◌≤◌, ◌≡◌, refl, ap, Bool, true, false, ◌&&◌, List, [], ◌∷◌, ◌++◌, leb,
  if◌then◌else◌, arith,
}
use oxiduct.Text.{Text}
use oxiduct.Metrics.Utf8.{
  replacement, Pending, between, within, first_byte, continued, next_byte, decode_from,
}
use oxiduct.Metrics.Request.{starts_line, first_line, is_metrics, asks_for_metrics}

-- Texts with the same first line.
abbrev SameLine : Text → Text → Type 0
SameLine a b = (first_line a ≡ first_line b) × (starts_line a ≡ starts_line b)

append-SameLine : (s a b : Text) → SameLine a b → SameLine (s ++ a) (s ++ b)
unfolding first_line
append-SameLine [] a b h = h
append-SameLine (c ∷ s) a b h = let (e, f) = append-SameLine s a b h in (rw (e, f) refl, refl)

-- No newline is taken for the rest of a character.
abbrev IsHigh : Pending → Type 0
IsHigh between = Unit
IsHigh (within more lo hi bits) = 128 ≤ lo

first_byte-IsHigh : (b : ℕ) → IsHigh (first_byte b).1
unfolding first_byte
first_byte-IsHigh b = ground arith

chosen-IsHigh :
    (c : Bool) (x y : Text × Pending) → IsHigh x.1 → IsHigh y.1 → IsHigh (if c then x else y).1
chosen-IsHigh true x y h k = h
chosen-IsHigh false x y h k = k

continued-IsHigh : (more bits : ℕ) → IsHigh (continued more bits).1
continued-IsHigh more bits = ground arith

next_byte-IsHigh : (p : Pending) (b : ℕ) → IsHigh p → IsHigh (next_byte p b).1
next_byte-IsHigh between b h = first_byte-IsHigh b
next_byte-IsHigh (within more lo hi bits) b h =
    chosen-IsHigh _ (continued more (bits * 64 + (b - 0x80)))
      (replacement ∷ (first_byte b).0, (first_byte b).1)
      (continued-IsHigh more (bits * 64 + (b - 0x80))) (first_byte-IsHigh b)

past_newline : (lo hi : ℕ) → 128 ≤ lo → leb lo b'\n' && leb b'\n' hi ≡ false
past_newline lo hi h = ground arith

newline-SameLine :
    (p : Pending) (xs ys : List ℕ)
    → IsHigh p
    → SameLine (decode_from p (b'\n' ∷ xs)) (decode_from p (b'\n' ∷ ys))
unfolding decode_from first_byte first_line
newline-SameLine between xs ys h = (refl, refl)
newline-SameLine (within more lo hi bits) xs ys h = rw (past_newline lo hi h) (refl, refl)

decode-SameLine :
    (p : Pending) (line xs ys : List ℕ)
    → IsHigh p
    → SameLine (decode_from p (line ++ (b'\n' ∷ xs))) (decode_from p (line ++ (b'\n' ∷ ys)))
unfolding decode_from
decode-SameLine p [] xs ys h = newline-SameLine p xs ys h
decode-SameLine p (b ∷ line) xs ys h =
    append-SameLine (next_byte p b).0 _ _
      (decode-SameLine (next_byte p b).1 line xs ys (next_byte-IsHigh p b h))

pub asks_lem :
    (line rest : List ℕ)
    → asks_for_metrics (line ++ (b'\n' ∷ rest)) ≡ asks_for_metrics (line ++ (b'\n' ∷ []))
asks_lem line rest = ap is_metrics (decode-SameLine between line rest [] tt).0

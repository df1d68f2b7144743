-- ===== src/Metrics/Utf8.antt =====
-- `String::from_utf8_lossy` of the standard library: the code points of a byte sequence, with the
-- replacement character for each maximal part that is not UTF-8.
use oxiduct.Base.{
  ℕ, zero, suc, ◌+◌, ◌-◌, ◌*◌, ◌&&◌, List, [], ◌∷◌, ◌++◌, ltb, leb, ◌==◌, if◌then◌else◌,
}
use oxiduct.Text.{Text}

-- How many bytes of a character are to come, the range of the next, and the bits read so far.
pub data Pending : Type 0 where
  between : Pending
  within : (more lo hi bits : ℕ) → Pending

abbrev pub replacement : ℕ
replacement = 0xFFFD

-- A byte where a character begins: what it gives, and what is then pending.
unfoldable pub first_byte : ℕ → Text × Pending
first_byte b =
    if ltb b 0x80
    then (b ∷ [], between)
    else if leb 0xC2 b && leb b 0xDF
    then ([], within 0 0x80 0xBF (b - 0xC0))
    else if b == 0xE0
    then ([], within 1 0xA0 0xBF 0)
    else if b == 0xED
    then ([], within 1 0x80 0x9F 0xD)
    else if leb 0xE1 b && leb b 0xEF
    then ([], within 1 0x80 0xBF (b - 0xE0))
    else if b == 0xF0
    then ([], within 2 0x90 0xBF 0)
    else if leb 0xF1 b && leb b 0xF3
    then ([], within 2 0x80 0xBF (b - 0xF0))
    else if b == 0xF4
    then ([], within 2 0x80 0x8F 4)
    else (replacement ∷ [], between)

abbrev pub continued : ℕ → ℕ → Text × Pending
continued zero bits = (bits ∷ [], between)
continued (suc more) bits = ([], within more 0x80 0xBF bits)

-- A byte of the wrong range ends the character, and may begin the next.
abbrev pub next_byte : Pending → ℕ → Text × Pending
next_byte between b = first_byte b
next_byte (within more lo hi bits) b =
    if leb lo b && leb b hi
    then continued more (bits * 64 + (b - 0x80))
    else (replacement ∷ (first_byte b).0, (first_byte b).1)

-- What is left pending at the end is one replacement.
abbrev pub left : Pending → Text
left between = []
left (within more lo hi bits) = replacement ∷ []

unfoldable pub decode_from : Pending → List ℕ → Text
unfolding first_byte
decode_from p [] = left p
decode_from p (b ∷ bs) = let (cs, q) = next_byte p b in cs ++ decode_from q bs

abbrev pub from_utf8_lossy : List ℕ → Text
from_utf8_lossy = decode_from between

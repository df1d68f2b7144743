-- ===== src/Metrics/Request.antt =====
-- src/metrics.rs, `handle_request`: reading the request line, and the test of it.
mod FirstLine
pub mod Lines
pub mod Target
use oxiduct.Base.{
  ℕ, ◌+◌, ◌-◌, Bool, true, false, ◌&&◌, ◌||◌, List, [], ◌∷◌, ◌++◌, Option, none, some, ltb, leb,
  ◌==◌, if◌then◌else◌, length, take, ite,
}
use oxiduct.Text.{Text, codes, Text-discrete}
use oxiduct.Metrics.Utf8.{from_utf8_lossy}
use oxiduct.Metrics.Response.{response}

abbrev pub buf_len : ℕ
buf_len = 1024

-- The loop: still reading, with the bytes so far; or left with them; or left by a read error.
pub data Reading : Type 0 where
  reading done : List ℕ → Reading
  failed : Reading

unfoldable pub has : ℕ → List ℕ → Bool
has c [] = false
has c (x ∷ xs) = x == c || has c xs

-- What one `read` gives: no more than the buffer has room for.
abbrev pub fitting : List ℕ → List ℕ → List ℕ
fitting buf chunk = take (buf_len - length buf) chunk

unfoldable pub on_read : List ℕ → Option (List ℕ) → Reading
unfolding has
on_read buf none = failed
on_read buf (some chunk) =
    let buf' = buf ++ fitting buf chunk in
    if length (fitting buf chunk) == 0 || has b'\n' buf' || length buf' == buf_len
    then done buf'
    else reading buf'

-- The loop over what the reads give.
unfoldable pub read_from : Reading → List (Option (List ℕ)) → Reading
unfolding on_read
read_from r [] = r
read_from (reading buf) (c ∷ cs) = read_from (on_read buf c) cs
read_from (done buf) (c ∷ cs) = done buf
read_from failed (c ∷ cs) = failed

abbrev pub read_request : List (Option (List ℕ)) → Reading
read_request = read_from (reading [])

abbrev pub starts_line : Text → Bool
starts_line [] = false
starts_line (d ∷ ds) = d == b'\n'

-- `lines().next().unwrap_or("")`: up to the first newline, less a carriage return before it.
unfoldable pub first_line : Text → Text
first_line [] = []
first_line (c ∷ cs) =
    let rest = first_line cs in
    if c == b'\n' then [] else if c == b'\r' && starts_line cs then [] else c ∷ rest

-- The characters of Unicode's White_Space.
abbrev pub is_whitespace : ℕ → Bool
is_whitespace c =
    (leb 9 c && leb c 13)
    || c == 0x20
    || c == 0x85
    || c == 0xA0
    || c == 0x1680
    || (leb 0x2000 c && leb c 0x200A)
    || c == 0x2028
    || c == 0x2029
    || c == 0x202F
    || c == 0x205F
    || c == 0x3000

unfoldable pub skip_whitespace : Text → Text
skip_whitespace [] = []
skip_whitespace (c ∷ cs) = let rest = skip_whitespace cs in if is_whitespace c then rest else c ∷ cs

-- The characters up to the next whitespace, and those from there on.
unfoldable pub word : Text → Text
word [] = []
word (c ∷ cs) = let rest = word cs in if is_whitespace c then [] else c ∷ rest

unfoldable pub after_word : Text → Text
after_word [] = []
after_word (c ∷ cs) = let rest = after_word cs in if is_whitespace c then c ∷ cs else rest

-- `split_whitespace`: the first part and the second, empty if there is none.
unfoldable pub method : Text → Text
method line = word (skip_whitespace line)

unfoldable pub path : Text → Text
path line = word (skip_whitespace (after_word (skip_whitespace line)))

unfoldable pub starts_with : Text → Text → Bool
starts_with [] s = true
starts_with (p ∷ ps) [] = false
starts_with (p ∷ ps) (c ∷ cs) = p == c && starts_with ps cs

abbrev pub same_text : Text → Text → Bool
same_text s t = ite (Text-discrete s t) true false

unfoldable pub is_metrics : Text → Bool
unfolding method path starts_with
is_metrics line =
    same_text (method line) (codes "GET")
    && (same_text (path line) (codes "/metrics") || starts_with (codes "/metrics?") (path line))

-- Whether the request that was read asks for the metrics.
abbrev pub asks_for_metrics : List ℕ → Bool
asks_for_metrics buf = is_metrics (first_line (from_utf8_lossy buf))

-- What `handle_request` writes, once the request has been read.
unfoldable pub reply : Reading → (rendered : List ℕ) → Option (List ℕ)
reply (done buf) rendered = some (response (asks_for_metrics buf) rendered)
reply r rendered = none

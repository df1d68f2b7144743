-- ===== src/Metrics/Response/Reader.antt =====
-- A reader of HTTP responses, written after RFC 9112 and not after the code, and what it reads.
use mathlib.Core.List.{append_assoc}
use oxiduct.Base.{
  ℕ, zero, suc, ◌+◌, ◌-◌, ◌*◌, ◌/◌, ◌%◌, ◌<◌, ◌≤◌, ◌≡◌, refl, ap, ◌∙◌, Bool, true, false, ◌&&◌,
  List, [], ◌∷◌, ◌++◌, Option, none, some, ltb, leb, ◌==◌, if◌then◌else◌, Bool-cases, inl, inr,
  arith, length, All,
}
use oxiduct.Text.{Text, codes, decimal, decimal_from}
use oxiduct.Metrics.Response.{header, response}

-- A decimal numeral, read from its first digit on.
unfoldable pub value_from : ℕ → Text → Option ℕ
value_from acc [] = some acc
value_from acc (c ∷ cs) =
    let rest = value_from (acc * 10 + (c - b'0')) cs in
    if leb b'0' c && leb c b'9' then rest else none

abbrev pub starts_lf : Text → Bool
starts_lf [] = false
starts_lf (c ∷ cs) = c == b'\n'

abbrev tail : Text → Text
tail [] = []
tail (c ∷ cs) = cs

abbrev pub before : ℕ → Option (Text × Text) → Option (Text × Text)
before c none = none
before c (some (line, rest)) = some (c ∷ line, rest)

-- The bytes up to the first CRLF, and those behind it.
unfoldable pub crlf_line : Text → Option (Text × Text)
crlf_line [] = none
crlf_line (c ∷ cs) =
    let rest = crlf_line cs in
    if c == b'\r' && starts_lf cs then some ([], tail cs) else before c rest

-- What stands behind a prefix.
unfoldable pub strip_prefix : Text → Text → Option Text
strip_prefix [] s = some s
strip_prefix (p ∷ ps) [] = none
strip_prefix (p ∷ ps) (c ∷ cs) = let rest = strip_prefix ps cs in if p == c then rest else none

infixl 5 ◌>>=◌
abbrev ◌>>=◌ : {A B : Type 0} → Option A → (A → Option B) → Option B
none >>= f = none
some a >>= f = f a

pub record Message : Type 0 where
  pub status : Text
  pub content_type : Text
  pub body : List ℕ

-- The body has the announced length.
abbrev pub whole : ℕ → Message → Option Message
whole n m = if length m.body == n then some m else none

-- A status line, three header fields, an empty line, and a body of the announced length, after
-- which the connection ends.
unfoldable pub read_message : List ℕ → Option Message
unfolding crlf_line strip_prefix value_from
read_message bytes = do
  (l1, r1) ← crlf_line bytes
  status ← strip_prefix (codes "HTTP/1.1 ") l1
  (l2, r2) ← crlf_line r1
  content_type ← strip_prefix (codes "Content-Type: ") l2
  (l3, r3) ← crlf_line r2
  digits ← strip_prefix (codes "Content-Length: ") l3
  n ← value_from 0 digits
  (l4, r4) ← crlf_line r3
  close ← strip_prefix (codes "Connection: close") l4
  (l5, body) ← crlf_line r4
  whole n (record { status = status; content_type = content_type; body = body })

value_from-decimal_from :
    (fuel n : ℕ) (acc : Text) → n < fuel → value_from 0 (decimal_from fuel n acc) ≡ value_from n acc
unfolding value_from decimal_from
value_from-decimal_from zero n acc h = elim h [ ]
value_from-decimal_from (suc fuel) n acc h = elim (Bool-cases (ltb n 10)) [
  | inl small ↦ ground (arith, small)
  | inr more ↦ ground (arith, more, value_from-decimal_from fuel (n / 10) ((b'0' + n % 10) ∷ acc))
]

pub value_from-decimal : (n : ℕ) → value_from 0 (decimal n) ≡ some n
unfolding decimal value_from
value_from-decimal n = value_from-decimal_from (suc n) n [] (omega arith)

abbrev IsDigits : Text → Type 0
IsDigits = All (λ c. (48 ≤ c) × (c ≤ 57))

decimal_from-IsDigits :
    (fuel n : ℕ) (acc : Text) → IsDigits acc → IsDigits (decimal_from fuel n acc)
unfolding decimal_from
decimal_from-IsDigits zero n acc h = h
decimal_from-IsDigits (suc fuel) n acc h =
    ground (arith, decimal_from-IsDigits fuel (n / 10) ((b'0' + n % 10) ∷ acc))

-- Digits are read through to the end of their line.
crlf_line-digits :
    (ds rest : Text) → IsDigits ds → crlf_line (ds ++ b'\r' ∷ b'\n' ∷ rest) ≡ some (ds, rest)
unfolding crlf_line
crlf_line-digits [] rest h = refl
crlf_line-digits (d ∷ ds) rest h = ground (arith, crlf_line-digits ds rest h.1)

closing : List ℕ → List ℕ
closing body = codes "Connection: close\r\n\r\n" ++ body

decimal-IsDigits : (n : ℕ) → IsDigits (decimal n)
unfolding decimal
decimal-IsDigits n = decimal_from-IsDigits (suc n) n [] tt

-- The line with the digits, with what follows it.
length_line :
    (n : ℕ) (body : List ℕ)
    → crlf_line ((decimal n ++ codes "\r\nConnection: close\r\n\r\n") ++ body)
      ≡ some (decimal n, closing body)
unfolding closing
length_line n body =
    ap crlf_line (append_assoc (decimal n) _ body)
    ∙ crlf_line-digits (decimal n) (closing body) (decimal-IsDigits n)

same_self : (n : ℕ) → (n == n) ≡ true
same_self n = ground arith

-- A reader of the response finds its status, its type and its whole body.
read_message-found :
    (body : List ℕ)
    → read_message (header (codes "200 OK") (codes "text/plain; version=0.0.4") body ++ body)
      ≡ some (record {
        status = codes "200 OK";
        content_type = codes "text/plain; version=0.0.4";
        body = body;
      })
unfolding read_message header closing
read_message-found body =
    rw (length_line (length body) body, value_from-decimal (length body), same_self (length body))
      refl

read_message-not_found :
    read_message (
      header (codes "404 Not Found") (codes "text/plain") (codes "404 not found\n")
      ++ codes "404 not found\n")
    ≡ some (record {
      status = codes "404 Not Found";
      content_type = codes "text/plain";
      body = codes "404 not found\n";
    })
unfolding read_message header decimal
read_message-not_found = refl

abbrev pub answer : Bool → List ℕ → Message
answer true rendered = record {
  status = codes "200 OK";
  content_type = codes "text/plain; version=0.0.4";
  body = rendered;
}
answer false rendered = record {
  status = codes "404 Not Found";
  content_type = codes "text/plain";
  body = codes "404 not found\n";
}

-- A reader of HTTP responses, which takes the body to be as long as announced and the connection to
-- end behind it, finds in the response the status, the content type and the whole body: the
-- rendered metrics, whatever bytes they are, or the text of the 404.
pub read_message-response :
    (is_metrics : Bool) (rendered : List ℕ)
    → read_message (response is_metrics rendered) ≡ some (answer is_metrics rendered)
unfolding response
read_message-response true rendered = read_message-found rendered
read_message-response false rendered = read_message-not_found

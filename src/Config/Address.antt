-- ===== src/Config/Address.antt =====
-- src/config.rs, `check_host_port`, and src/cli.rs, `expand_listen`: which texts are addresses.
use oxiduct.Base.{
  ℕ, ◌+◌, ◌-◌, ◌*◌, ◌<◌, ◌≡◌, ◌≢◌, ◌↔◌, inl, inr, refl, [], ◌∷◌, ◌++◌, none, some, arith, All,
  Option-cases, Bool-cases, ◌==◌,
}
use oxiduct.Base.Words.{u16_mod}
use oxiduct.Text.{Text, codes, rsplit_once, parse_u16, digits_from, nonempty_digits}
use oxiduct.Cli.{expand_listen}
use oxiduct.Config.{check_host_port, ok}

abbrev pub Lacks : ℕ → Text → Type 0
Lacks c = All (λ x. x ≢ c)

rsplit_once-none : (c : ℕ) (s : Text) → rsplit_once c s ≡ none → Lacks c s
unfolding rsplit_once
rsplit_once-none c [] e = tt
rsplit_once-none c (x ∷ xs) e = ground (arith, rsplit_once-none c xs)

rsplit_once-some :
    (c : ℕ) (s before after : Text)
    → rsplit_once c s ≡ some (before, after)
    → (s ≡ before ++ c ∷ after) × Lacks c after
unfolding rsplit_once
rsplit_once-some c [] before after e = cc
rsplit_once-some c (x ∷ xs) before after e = elim (Option-cases (rsplit_once c xs)) [
  | inl absent ↦ ground (arith, rsplit_once-none c xs absent)
  | inr ((b, a), found) ↦ ground (arith, rsplit_once-some c xs b a found)
]

rsplit_once-Lacks : (c : ℕ) (s : Text) → Lacks c s → rsplit_once c s ≡ none
unfolding rsplit_once
rsplit_once-Lacks c [] h = refl
rsplit_once-Lacks c (x ∷ xs) h = ground (arith, rsplit_once-Lacks c xs h.1)

rsplit_once-append :
    (c : ℕ) (before after : Text)
    → Lacks c after
    → rsplit_once c (before ++ c ∷ after) ≡ some (before, after)
unfolding rsplit_once
rsplit_once-append c [] after h = ground (arith, rsplit_once-Lacks c after h)
rsplit_once-append c (x ∷ xs) after h = rw (rsplit_once-append c xs after h)

-- A nonempty host, the last colon, and a text that is a port.
abbrev pub HostPort : Text → ℕ → Type 0
HostPort s port =
    (host : Text) × (p : Text) × (s ≡ host ++ b':' ∷ p)
    × (host ≢ [])
    × Lacks b':' p
    × (parse_u16 p ≡ some port)

digits_from-lt :
    (acc : ℕ) (s : Text) (n : ℕ) → acc < u16_mod → digits_from acc s ≡ some n → n < u16_mod
unfolding digits_from
digits_from-lt acc [] n h e = ground arith
digits_from-lt acc (c ∷ cs) n h e =
    digits_from-lt (acc * 10 + (c - b'0')) cs n (ground arith) (ground arith)

digits_from-Lacks : (acc : ℕ) (s : Text) (n : ℕ) → digits_from acc s ≡ some n → Lacks b':' s
unfolding digits_from
digits_from-Lacks acc [] n e = tt
digits_from-Lacks acc (c ∷ cs) n e =
    (λ same. ground arith, digits_from-Lacks (acc * 10 + (c - b'0')) cs n (ground arith))

nonempty_digits-lt : (s : Text) (n : ℕ) → nonempty_digits s ≡ some n → n < u16_mod
nonempty_digits-lt [] n e = cc
nonempty_digits-lt (c ∷ cs) n e = digits_from-lt 0 (c ∷ cs) n (omega arith) e

nonempty_digits-Lacks : (s : Text) (n : ℕ) → nonempty_digits s ≡ some n → Lacks b':' s
nonempty_digits-Lacks [] n e = tt
nonempty_digits-Lacks (c ∷ cs) n e = digits_from-Lacks 0 (c ∷ cs) n e

pub parse_u16-lt : (s : Text) (n : ℕ) → parse_u16 s ≡ some n → n < u16_mod
unfolding parse_u16
parse_u16-lt [] n e = cc
parse_u16-lt (c ∷ cs) n e = elim (Bool-cases (c == b'+')) [
  | inl plus ↦ nonempty_digits-lt cs n (ground arith)
  | inr digit ↦ digits_from-lt 0 (c ∷ cs) n (omega arith) (ground arith)
]

parse_u16-Lacks : (s : Text) (n : ℕ) → parse_u16 s ≡ some n → Lacks b':' s
unfolding parse_u16
parse_u16-Lacks [] n e = tt
parse_u16-Lacks (c ∷ cs) n e = elim (Bool-cases (c == b'+')) [
  | inl plus ↦ ((λ same. ground arith), nonempty_digits-Lacks cs n (ground arith))
  | inr digit ↦ digits_from-Lacks 0 (c ∷ cs) n (ground arith)
]

check_host_port_sound : (s : Text) (port : ℕ) → check_host_port s ≡ ok port → HostPort s port
unfolding check_host_port
check_host_port_sound s port e = elim (Option-cases (rsplit_once b':' s)) [
  | inl absent ↦ ground arith
  | inr ((host, p), found) ↦
      let (whole, lacks) = rsplit_once-some b':' s host p found in
      (host, p, whole, (λ empty. ground arith), lacks, ground arith)
]

check_host_port_complete : (s : Text) (port : ℕ) → HostPort s port → check_host_port s ≡ ok port
unfolding check_host_port
check_host_port_complete s port (host, p, whole, nonempty, lacks, number) =
    ground (arith, rsplit_once-append b':' host p lacks)

-- An address is accepted with a port exactly when it is a nonempty host, a colon, and a text without
-- colons that parses as that 16-bit number.
pub check_host_port_iff : (s : Text) (port : ℕ) → (check_host_port s ≡ ok port) ↔ HostPort s port
check_host_port_iff s port = (check_host_port_sound s port, check_host_port_complete s port)

expand_listen-some :
    (s : Text) (port : ℕ) → parse_u16 s ≡ some port → expand_listen s ≡ codes "0.0.0.0:" ++ s
unfolding expand_listen
expand_listen-some s port e = rw (e, expand_listen)

expand_listen-none : (s : Text) → parse_u16 s ≡ none → expand_listen s ≡ s
unfolding expand_listen
expand_listen-none s e = rw (e, expand_listen)

parse_u16-expanded : (s : Text) → parse_u16 (codes "0.0.0.0:" ++ s) ≡ none
unfolding parse_u16
parse_u16-expanded s = refl

-- A bare port, once expanded, is an accepted address with that port, and is not expanded again.
pub check_host_port-expand_listen :
    (s : Text) (port : ℕ)
    → parse_u16 s ≡ some port
    → (check_host_port (expand_listen s) ≡ ok port)
      × (expand_listen (expand_listen s) ≡ expand_listen s)
check_host_port-expand_listen s port e = rw (expand_listen-some s port e) (
  check_host_port_complete _ port
      (codes "0.0.0.0", s, refl, (λ empty. cc), parse_u16-Lacks s port e, e),
  expand_listen-none _ (parse_u16-expanded s),
)

-- ===== src/Cli/LogLevel.antt =====
-- src/cli.rs: `parse_log_level`. Whether a word is a level, and what the filter says of the whole
-- text, are given: both are third-party parsers.
mod Tests
use oxiduct.Base.{
  ℕ, ◌≡◌, ◌≢◌, ◌↔◌, ◌⊎◌, inl, inr, refl, ap, ◌∙◌, Bool, true, false, ◌||◌, List, [], ◌∷◌, ◌++◌,
  Option, none, some, ◌==◌, if◌then◌else◌, arith, All, Bool-cases,
}
use oxiduct.Text.{Text}

unfoldable pub contains_char : ℕ → Text → Bool
contains_char c [] = false
contains_char c (x ∷ xs) = x == c || contains_char c xs

abbrev pub push : ℕ → List Text → List Text
push x [] = []
push x (p ∷ ps) = (x ∷ p) ∷ ps

-- `split`: the pieces between the separators, one at least.
unfoldable pub split : ℕ → Text → List Text
split c [] = [] ∷ []
split c (x ∷ xs) = let rest = split c xs in if x == c then [] ∷ rest else push x rest

abbrev pub is_empty : Text → Bool
is_empty [] = true
is_empty (x ∷ xs) = false

-- `Ok`, or an error message: for an unknown level, or the filter's own.
pub data Parsed : Type 0 where
  accepted unknown_level refused : Text → Parsed

abbrev pub verdict : Text → Option Text → Parsed
verdict s none = accepted s
verdict s (some message) = refused message

module _ (is_level : Text → Bool) (try_new : Text → Option Text) where
  -- The loop over the directives.
  unfoldable pub check_from : Text → List Text → Parsed
  unfolding contains_char
  check_from s [] = verdict s (try_new s)
  check_from s (d ∷ ds) =
      let rest = check_from s ds in
      if is_empty d || contains_char b'=' d || is_level d then rest else unknown_level d

  unfoldable pub parse_log_level : Text → Parsed
  unfolding check_from split
  parse_log_level s = check_from s (split b',' s)

-- The directives as one text.
abbrev pub join : List Text → Text
join [] = []
join (p ∷ []) = p
join (p ∷ q ∷ ps) = p ++ b',' ∷ join (q ∷ ps)

not_comma : (x : ℕ) (p : Text) → contains_char b',' (x ∷ p) ≡ false → (x == b',') ≡ false
unfolding contains_char
not_comma x p h = ground arith

no_comma : (x : ℕ) (p : Text) → contains_char b',' (x ∷ p) ≡ false → contains_char b',' p ≡ false
unfolding contains_char
no_comma x p h = ground arith

split-piece : (p : Text) → contains_char b',' p ≡ false → split b',' p ≡ p ∷ []
unfolding split
split-piece [] h = refl
split-piece (x ∷ p) h = rw (split-piece p (no_comma x p h), not_comma x p h) refl

split-append :
    (p s : Text) → contains_char b',' p ≡ false → split b',' (p ++ b',' ∷ s) ≡ p ∷ split b',' s
unfolding split
split-append [] s h = refl
split-append (x ∷ p) s h = rw (split-append p s (no_comma x p h), not_comma x p h) refl

split-join :
    (ps : List Text)
    → ps ≢ []
    → All (λ p. contains_char b',' p ≡ false) ps
    → split b',' (join ps) ≡ ps
split-join [] n h = absurd (n refl)
split-join (p ∷ []) n h = split-piece p h.0
split-join (p ∷ q ∷ ps) n h =
    split-append p (join (q ∷ ps)) h.0 ∙ ap (◌∷◌ p) (split-join (q ∷ ps) (λ e. cc) h.1)

module _ (is_level : Text → Bool) (try_new : Text → Option Text) where
  -- A directive that is empty, scoped to a target, or a level.
  abbrev pub IsKnown : Text → Type 0
  IsKnown d = (d ≡ []) ⊎ ((contains_char b'=' d ≡ true) ⊎ (is_level d ≡ true))

  directive_lem :
      (d : Text) → ((is_empty d || contains_char b'=' d || is_level d) ≡ true) ↔ IsKnown d
  directive_lem [] = (λ h. inl refl, λ h. refl)
  directive_lem (x ∷ d) = (
    λ h. elim (Bool-cases (contains_char b'=' (x ∷ d))) [
      | inl scoped ↦ inr (inl scoped)
      | inr bare ↦ inr (inr (ground (arith, h, bare)))
    ],
    λ k. ground (arith, k),
  )

  verdict_iff : (s : Text) (o : Option Text) → (verdict s o ≡ accepted s) ↔ (o ≡ none)
  verdict_iff s none = (λ h. refl, λ h. refl)
  verdict_iff s (some message) = (λ h. cc, λ h. cc)

  choice_iff :
      (b : Bool) (r : Parsed) (s d : Text)
      → ((if b then r else unknown_level d) ≡ accepted s) ↔ ((b ≡ true) × (r ≡ accepted s))
  choice_iff true r s d = (λ h. (refl, h), λ h. h.1)
  choice_iff false r s d = (λ h. cc, λ h. cc)

  check_from_iff :
      (s : Text) (ds : List Text)
      → (check_from is_level try_new s ds ≡ accepted s) ↔ (All IsKnown ds × (try_new s ≡ none))
  unfolding check_from
  check_from_iff s [] =
      let (to, from) = verdict_iff s (try_new s) in (λ h. (tt, to h), λ h. from h.1)
  check_from_iff s (d ∷ ds) =
      let (split_up, put) =
        choice_iff (is_empty d || contains_char b'=' d || is_level d)
          (check_from is_level try_new s ds) s d in
      let (to, from) = check_from_iff s ds in
      let (known, back) = directive_lem d in
      (
        λ h. let (k, r) = split_up h in let (all, ok) = to r in ((known k, all), ok),
        λ h. put (back h.0.0, from (h.0.1, h.1)),
      )

  -- A text of directives between commas is accepted exactly if every directive is empty, scoped to
  -- a target, or a level, and the filter takes the whole text.
  pub parse_log_level_iff :
      (ds : List Text)
      → ds ≢ []
      → All (λ d. contains_char b',' d ≡ false) ds
      → (parse_log_level is_level try_new (join ds) ≡ accepted (join ds))
        ↔ (All IsKnown ds × (try_new (join ds) ≡ none))
  unfolding parse_log_level
  parse_log_level_iff ds n h = rw (split-join ds n h) (check_from_iff (join ds) ds)

-- ===== src/Metrics/Request/Target.antt =====
-- src/metrics.rs: which request lines ask for the metrics.
use mathlib.Core.Path.{subst}
use oxiduct.Base.{
  ◌≡◌, ◌≢◌, refl, sym, ap, ◌∙◌, ◌↔◌, ◌⊎◌, inl, inr, true, false, ◌||◌, [], ◌∷◌, ◌++◌, arith, All,
  Bool-cases,
}
use oxiduct.Text.{Text, codes}
use oxiduct.Metrics.Request.{
  is_whitespace, skip_whitespace, word, after_word, method, path, starts_with, same_text,
  is_metrics,
}

abbrev pub IsBlank : Text → Type 0
IsBlank = All (λ c. is_whitespace c ≡ true)

abbrev pub IsWord : Text → Type 0
IsWord = All (λ c. is_whitespace c ≡ false)

-- Nothing, or whitespace first; nothing, or something else first.
abbrev pub BlankFirst : Text → Type 0
BlankFirst [] = Unit
BlankFirst (c ∷ cs) = is_whitespace c ≡ true

abbrev InkFirst : Text → Type 0
InkFirst [] = Unit
InkFirst (c ∷ cs) = is_whitespace c ≡ false

skip_split :
    (s : Text)
    → (b : Text) × (s ≡ b ++ skip_whitespace s) × IsBlank b × InkFirst (skip_whitespace s)
unfolding skip_whitespace
skip_split [] = ([], refl, tt, tt)
skip_split (c ∷ cs) = elim (Bool-cases (is_whitespace c)) [
  | inl white ↦ let (b, e, h, k) = skip_split cs in rw white (c ∷ b, ap (◌∷◌ c) e, (white, h), k)
  | inr ink ↦ rw ink ([], refl, tt, ink)
]

word_split : (s : Text) → (s ≡ word s ++ after_word s) × IsWord (word s) × BlankFirst (after_word s)
unfolding word after_word
word_split [] = (refl, tt, tt)
word_split (c ∷ cs) = elim (Bool-cases (is_whitespace c)) [
  | inl white ↦ rw white (refl, tt, white)
  | inr ink ↦ let (e, h, k) = word_split cs in rw ink (ap (◌∷◌ c) e, (ink, h), k)
]

skip-blank : (b s : Text) → IsBlank b → InkFirst s → skip_whitespace (b ++ s) ≡ s
unfolding skip_whitespace
skip-blank [] [] h k = refl
skip-blank [] (c ∷ cs) h k = rw k refl
skip-blank (c ∷ b) s h k = rw h.0 (skip-blank b s h.1 k)

word-word : (w s : Text) → IsWord w → BlankFirst s → (word (w ++ s) ≡ w) × (after_word (w ++ s) ≡ s)
unfolding word after_word
word-word [] [] h k = (refl, refl)
word-word [] (c ∷ cs) h k = rw k (refl, refl)
word-word (c ∷ w) s h k = let (e, f) = word-word w s h.1 k in rw h.0 (ap (◌∷◌ c) e, f)

starts_with_iff : (p s : Text) → (starts_with p s ≡ true) ↔ ((q : Text) × (s ≡ p ++ q))
unfolding starts_with
starts_with_iff [] s = ((λ h. (s, refl)), λ h. refl)
starts_with_iff (c ∷ p) [] = ((λ h. cc), λ (q, e). cc)
starts_with_iff (c ∷ p) (d ∷ s) =
    let (to, from) = starts_with_iff p s in
    (
      (λ h. let (q, e) = to (ground arith) in (q, ground arith)),
      λ (q, e). ground (arith, from (q, ground arith)),
    )

-- The path of the metrics, with or without a query.
abbrev pub IsTarget : Text → Type 0
IsTarget t = (t ≡ codes "/metrics") ⊎ ((q : Text) × (t ≡ codes "/metrics?" ++ q))

-- A line that asks for the metrics: the method and the path as its first two words.
pub record Asks (line : Text) : Type 0 where
  pub blank : Text
  pub gap : Text
  pub target : Text
  pub rest : Text
  pub split : line ≡ blank ++ (codes "GET" ++ (gap ++ (target ++ rest)))
  pub blank_IsBlank : IsBlank blank
  pub gap_IsBlank : IsBlank gap
  pub gap_ne_nil : gap ≢ []
  pub target_IsWord : IsWord target
  pub target_IsTarget : IsTarget target
  pub rest_first : BlankFirst rest

same_text_iff : (s t : Text) → (same_text s t ≡ true) ↔ (s ≡ t)
same_text_iff s t = ground arith

matches_iff :
    (t : Text)
    → ((same_text t (codes "/metrics") || starts_with (codes "/metrics?") t) ≡ true) ↔ IsTarget t
matches_iff t =
    let (to, from) = starts_with_iff (codes "/metrics?") t in
    let (same, equal) = same_text_iff t (codes "/metrics") in
    (cases (Bool-cases (same_text t (codes "/metrics"))), back)
  where
    cases :
        (same_text t (codes "/metrics") ≡ true) ⊎ (same_text t (codes "/metrics") ≡ false)
        → (same_text t (codes "/metrics") || starts_with (codes "/metrics?") t) ≡ true
        → IsTarget t
    cases (inl e) h = inl ((same_text_iff t (codes "/metrics")).0 e)
    cases (inr e) h = inr ((starts_with_iff (codes "/metrics?") t).0 (ground (arith, e, h)))

    back : IsTarget t → (same_text t (codes "/metrics") || starts_with (codes "/metrics?") t) ≡ true
    back (inl e) = ground (arith, (same_text_iff t (codes "/metrics")).1 e)
    back (inr (q, e)) = ground (arith, (starts_with_iff (codes "/metrics?") t).1 (q, e))

target-ink : (t r : Text) → IsTarget t → InkFirst (t ++ r)
target-ink t r (inl e) = subst (λ x. InkFirst (x ++ r)) (sym e) refl
target-ink t r (inr (q, e)) = subst (λ x. InkFirst (x ++ r)) (sym e) refl

gap-blank : (g r : Text) → IsBlank g → g ≢ [] → BlankFirst (g ++ r)
gap-blank [] r h n = absurd (n refl)
gap-blank (c ∷ g) r h n = h.0

complete : (line : Text) → Asks line → is_metrics line ≡ true
unfolding is_metrics method path
complete line a =
    let m =
      skip-blank a.blank (codes "GET" ++ (a.gap ++ (a.target ++ a.rest))) a.blank_IsBlank refl in
    let (w, after) =
      word-word (codes "GET") (a.gap ++ (a.target ++ a.rest)) (refl, (refl, (refl, tt)))
        (gap-blank a.gap (a.target ++ a.rest) a.gap_IsBlank a.gap_ne_nil) in
    let s =
      skip-blank a.gap (a.target ++ a.rest) a.gap_IsBlank
        (target-ink a.target a.rest a.target_IsTarget) in
    let (p, q) = word-word a.target a.rest a.target_IsWord a.rest_first in
    rw (a.split, m, w, after, s, p) (ground (arith, (matches_iff a.target).1 a.target_IsTarget))

gap_needed : (g a : Text) → BlankFirst (g ++ a) → InkFirst a → IsTarget (word a) → g ≢ []
unfolding word
gap_needed g [] h k (inl e) n = cc
gap_needed g [] h k (inr (q, e)) n = cc
gap_needed g (c ∷ a) h k t n = ground arith

sound : (line : Text) → is_metrics line ≡ true → Asks line
unfolding is_metrics method path
sound line h =
    let (blank, e1, h1, k1) = skip_split line in
    let (e2, h2, k2) = word_split (skip_whitespace line) in
    let (gap, e3, h3, k3) = skip_split (after_word (skip_whitespace line)) in
    let (e4, h4, k4) = word_split (skip_whitespace (after_word (skip_whitespace line))) in
    let get : word (skip_whitespace line) ≡ codes "GET" =
      (same_text_iff _ (codes "GET")).0 (ground arith) in
    let target : IsTarget (word (skip_whitespace (after_word (skip_whitespace line)))) =
      (matches_iff _).0 (ground arith) in
    record {
      blank = blank;
      gap = gap;
      target = word (skip_whitespace (after_word (skip_whitespace line)));
      rest = after_word (skip_whitespace (after_word (skip_whitespace line)));
      split =
          e1
          ∙ ap (◌++◌ blank) (
              e2
              ∙ ap (λ x. x ++ after_word (skip_whitespace line)) get
              ∙ ap (λ x. codes "GET" ++ x) (e3 ∙ ap (◌++◌ gap) e4));
      blank_IsBlank = h1;
      gap_IsBlank = h3;
      gap_ne_nil = gap_needed gap _ (subst BlankFirst e3 k2) k3 target;
      target_IsWord = h4;
      target_IsTarget = target;
      rest_first = k4;
    }

-- A line asks for the metrics exactly if its first word, behind any whitespace, is "GET" and its
-- second is "/metrics", alone or with a query.
pub is_metrics_iff : (line : Text) → (is_metrics line ≡ true) ↔ Asks line
is_metrics_iff line = (sound line, complete line)

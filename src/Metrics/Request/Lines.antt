-- ===== src/Metrics/Request/Lines.antt =====
-- src/metrics.rs, `handle_request`: requests that come in several reads.
use mathlib.Core.List.{append_assoc}
use mathlib.Core.Path.{subst}
use oxiduct.Base.{
  ℕ, ◌-◌, ◌≤◌, ◌<◌, ◌≡◌, ◌≢◌, refl, sym, ap, ◌∙◌, ◌⊎◌, inl, inr, Bool, true, false, ◌||◌, List, [],
  ◌∷◌, ◌++◌, Option, some, ◌==◌, if◌then◌else◌, arith, All, map, length, take, drop,
  take-append-drop, zero, suc, length-append,
}
use oxiduct.Metrics.Request.FirstLine.{asks_lem}
use oxiduct.Metrics.Response.{response}
use oxiduct.Metrics.Request.{
  Reading, reading, done, has, fitting, on_read, read_from, read_request, asks_for_metrics, reply,
  buf_len,
}

-- A first part of a text whose first newline is behind `line`.
prefix_cases :
    (front more line rest : List ℕ)
    → front ++ more ≡ line ++ (b'\n' ∷ rest)
    → has b'\n' line ≡ false
    → ((kept : List ℕ) × (has b'\n' front ≡ true) × (front ≡ line ++ (b'\n' ∷ kept)))
      ⊎ ((has b'\n' front ≡ false) × (length front ≤ length line))
unfolding has
prefix_cases [] more line rest e h = inr (refl, omega arith)
prefix_cases (c ∷ front) more [] rest e h = inl (front, ground arith, ground arith)
prefix_cases (c ∷ front) more (d ∷ line) rest e h =
    elim (prefix_cases front more line rest ground arith ground arith) [
      | inl (kept, k, q) ↦ inl (kept, ground arith, ground arith)
      | inr (k, le) ↦ inr (ground arith, omega (arith, le))
    ]

abbrev concat : List (List ℕ) → List ℕ
concat [] = []
concat (c ∷ cs) = c ++ concat cs

take_all : (n : ℕ) (xs : List ℕ) → length (take n xs) < n → take n xs ≡ xs
take_all zero xs h = ground (arith, h)
take_all (suc n) [] h = refl
take_all (suc n) (x ∷ xs) h = ap (◌∷◌ x) (take_all n xs (omega (arith, h)))

take_ne_nil : (n : ℕ) (xs : List ℕ) → 0 < n → xs ≢ [] → (length (take n xs) == 0) ≡ false
take_ne_nil zero xs h k = ground (arith, h)
take_ne_nil (suc n) [] h k = absurd (k refl)
take_ne_nil (suc n) (x ∷ xs) h k = ground arith

not_full : (n : ℕ) → n < 1024 → (n == 1024) ≡ false
not_full n h = ground arith

stops : (a b c : Bool) (x y : Reading) → b ≡ true → (if a || b || c then x else y) ≡ x
stops a b c x y h = ground arith

goes_on :
    (a b c : Bool) (x y : Reading)
    → a ≡ false
    → b ≡ false
    → c ≡ false
    → (if a || b || c then x else y) ≡ y
goes_on a b c x y h k l = ground arith

rest_of :
    (n : ℕ) (buf chunk more : List ℕ)
    → (buf ++ take n chunk) ++ (drop n chunk ++ more) ≡ buf ++ (chunk ++ more)
rest_of n buf chunk more =
    append_assoc buf (take n chunk) (drop n chunk ++ more)
    ∙ ap (◌++◌ buf) (
        sym (append_assoc (take n chunk) (drop n chunk) more)
        ∙ ap (λ x. x ++ more) (take-append-drop n chunk))

-- A read either completes the line or is whole and goes on.
on_read_lem :
    (buf chunk more line rest : List ℕ)
    → buf ++ (chunk ++ more) ≡ line ++ (b'\n' ∷ rest)
    → has b'\n' line ≡ false
    → length line < 1024
    → chunk ≢ []
    → ((kept : List ℕ) × (on_read buf (some chunk) ≡ done (line ++ (b'\n' ∷ kept))))
      ⊎ ((on_read buf (some chunk) ≡ reading (buf ++ chunk)) × (has b'\n' (buf ++ chunk) ≡ false))
unfolding on_read
on_read_lem buf chunk more line rest e h short n =
    let fit = fitting buf chunk in
    let room = 1024 - length buf in
    elim (prefix_cases (buf ++ fit) (drop room chunk ++ more) line rest
      (rest_of room buf chunk more ∙ e) h) [
        | inl (kept, k, q) ↦
            inl (kept, stops _ _ _ (done (buf ++ fit)) (reading (buf ++ fit)) k ∙ ap done q)
        | inr (k, le) ↦
            (let whole = take_all room chunk (omega (arith, le, short, length-append buf fit)) in
              inr (
                goes_on _ _ _ (done (buf ++ fit)) (reading (buf ++ fit))
                      (take_ne_nil room chunk (omega (arith, le, short, length-append buf fit)) n) k
                      (not_full (length (buf ++ fit)) (omega (arith, le, short)))
                    ∙ ap (λ x. reading (buf ++ x)) whole,
                subst (λ x. has b'\n' (buf ++ x) ≡ false) whole k,
              ))
      ]

pub read_from-done :
    (buf : List ℕ) (cs : List (Option (List ℕ))) → read_from (done buf) cs ≡ done buf
unfolding read_from
read_from-done buf [] = refl
read_from-done buf (c ∷ cs) = refl

no_end :
    (buf line rest : List ℕ)
    → buf ++ [] ≡ line ++ (b'\n' ∷ rest)
    → has b'\n' buf ≡ false
    → has b'\n' line ≡ false
    → ⊥
no_end buf line rest e k h = elim (prefix_cases buf [] line rest e h) [
  | inl (kept, found, q) ↦ cc
  | inr (none_found, le) ↦
      omega (arith, le, length-append buf [], length-append line (b'\n' ∷ rest), ap length e)
]

chunks_lem :
    (buf : List ℕ) (chunks : List (List ℕ)) (line rest : List ℕ)
    → buf ++ concat chunks ≡ line ++ (b'\n' ∷ rest)
    → has b'\n' buf ≡ false
    → has b'\n' line ≡ false
    → length line < 1024
    → All (λ c. c ≢ []) chunks
    → (kept : List ℕ) × (read_from (reading buf) (map some chunks) ≡ done (line ++ (b'\n' ∷ kept)))
unfolding read_from
chunks_lem buf [] line rest e k h short n = absurd (no_end buf line rest e k h)
chunks_lem buf (c ∷ cs) line rest e k h short n =
    elim (on_read_lem buf c (concat cs) line rest e h short n.0) [
      | inl (kept, q) ↦ (
        kept,
        ap (λ r. read_from r (map some cs)) q
            ∙ read_from-done (line ++ (b'\n' ∷ kept)) (map some cs),
      )
      | inr (q, k') ↦
          (let (kept, q') =
              chunks_lem (buf ++ c) cs line rest (append_assoc buf c (concat cs) ∙ e) k' h short
                n.1 in
            (kept, ap (λ r. read_from r (map some cs)) q ∙ q'))
    ]

-- A request whose first line ends within the first 1024 bytes gets the answer of that line, however
-- it is cut into reads that each give something, and whatever bytes follow the line.
pub reply-read_request :
    (chunks : List (List ℕ)) (line rest rendered : List ℕ)
    → concat chunks ≡ line ++ (b'\n' ∷ rest)
    → has b'\n' line ≡ false
    → length line < buf_len
    → All (λ c. c ≢ []) chunks
    → reply (read_request (map some chunks)) rendered
      ≡ some (response (asks_for_metrics (line ++ (b'\n' ∷ []))) rendered)
unfolding reply has
reply-read_request chunks line rest rendered e h short n =
    let (kept, q) = chunks_lem [] chunks line rest e refl h short n in
    rw (q, asks_lem line kept) refl

-- ===== src/Base/Lists.antt =====
-- Lists measured and indexed by native numbers, and predicates over all members.
use Prim.Native.Nat.{ℕ, zero, suc, ◌+◌}
use mathlib.Core.Path.{◌≡◌, refl, ap}
use mathlib.Core.List.{List, [], ◌∷◌, ◌++◌, Memᴰ}
use mathlib.Core.Option.{Option, none, some}
use native.Mathlib.Omega.{arith}

module _ {ℓ} {A : Type ℓ} where
  abbrev pub length : List A → ℕ
  length [] = 0
  length (x ∷ xs) = suc (length xs)

  abbrev pub get_elem? : List A → ℕ → Option A
  get_elem? [] i = none
  get_elem? (x ∷ xs) zero = some x
  get_elem? (x ∷ xs) (suc i) = get_elem? xs i

  abbrev pub take : ℕ → List A → List A
  take zero xs = []
  take (suc n) [] = []
  take (suc n) (x ∷ xs) = x ∷ take n xs

  abbrev pub drop : ℕ → List A → List A
  drop zero xs = xs
  drop (suc n) [] = []
  drop (suc n) (x ∷ xs) = drop n xs

  -- The list without its element at an index; unchanged out of range.
  abbrev pub remove_at : ℕ → List A → List A
  remove_at i [] = []
  remove_at zero (x ∷ xs) = xs
  remove_at (suc i) (x ∷ xs) = x ∷ remove_at i xs

  pub length-append : (xs ys : List A) → length (xs ++ ys) ≡ length xs + length ys
  length-append [] ys = omega arith
  length-append (x ∷ xs) ys = omega (arith, length-append xs ys)

module _ {ℓ} {A : Type ℓ} where
  pub take-append-drop : (n : ℕ) (xs : List A) → take n xs ++ drop n xs ≡ xs
  take-append-drop zero xs = refl
  take-append-drop (suc n) [] = refl
  take-append-drop (suc n) (x ∷ xs) = ap (◌∷◌ x) (take-append-drop n xs)

abbrev pub All {κ ℓ} : {A : Type ℓ} → (A → Type κ) → List A → Type κ
All Q [] = Unit
All Q (y ∷ ys) = Q y × All Q ys

-- Both parts of a concatenation.
pub All-append {κ ℓ} :
    {A : Type ℓ} (Q : A → Type κ) (front back : List A)
    → All Q front
    → All Q back
    → All Q (front ++ back)
All-append Q [] back first rest = rest
All-append Q (y ∷ front) back first rest = (first.0, All-append Q front back first.1 rest)

-- Each member of a list, with what holds of all of them, as a member of a larger one.
pub All-mem {ℓ κ} :
    {A : Type ℓ} (P : A → Type κ) (all xs : List A)
    → ((x : A) → Memᴰ x xs → Memᴰ x all)
    → All P xs
    → All (λ x. Memᴰ x all × P x) xs
All-mem P all [] inside h = tt
All-mem P all (x ∷ xs) inside h =
    ((inside x (Memᴰ.head refl), h.0), All-mem P all xs (λ y m. inside y (Memᴰ.tail m)) h.1)

pub All-map {κ η ℓ} :
    {A : Type ℓ} {P : A → Type κ} {Q : A → Type η}
    → ((x : A) → P x → Q x)
    → (xs : List A) → All P xs
    → All Q xs
All-map f [] h = tt
All-map f (x ∷ xs) h = (f x h.0, All-map f xs h.1)

pub length-remove_alike {ℓ κ} :
    {A : Type ℓ} {B : Type κ} (i : ℕ) (xs : List A) (ys : List B)
    → length xs ≡ length ys
    → length (remove_at i xs) ≡ length (remove_at i ys)
length-remove_alike i [] [] e = refl
length-remove_alike i [] (y ∷ ys) e = ground arith
length-remove_alike i (x ∷ xs) [] e = ground arith
length-remove_alike zero (x ∷ xs) (y ∷ ys) e = omega (arith, e)
length-remove_alike (suc i) (x ∷ xs) (y ∷ ys) e =
    omega (arith, length-remove_alike i xs ys (omega (arith, e)))

pub remove_at_past {ℓ} :
    {A : Type ℓ} (i : ℕ) (xs : List A) → get_elem? xs i ≡ none → remove_at i xs ≡ xs
remove_at_past i [] e = refl
remove_at_past zero (x ∷ xs) e = absurd (cc)
remove_at_past (suc i) (x ∷ xs) e = ap (λ ys. x ∷ ys) (remove_at_past i xs e)

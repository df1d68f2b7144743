-- ===== src/Base/Map.antt =====
-- A hash map as an association list over keys with decidable equality: the library's `lookup`,
-- and writes beside it.
use Prim.Native.Nat.{◌+◌}
use mathlib.Core.Path.{◌≡◌, refl}
use mathlib.Core.Bool.{Bool, true, false}
use mathlib.Core.Logic.{ite}
use mathlib.Core.List.{List, [], ◌∷◌, lookup}
use mathlib.Core.Option.{none, some}
use native.Mathlib.Omega.{arith}
use oxiduct.Base.Lists.{length}

module _ {ℓ} {K V : Type ℓ} (same : Discrete K) where
  -- Replaces the value of a key that is there, and adds one that is not.
  unfoldable pub insert : K → V → List (K × V) → List (K × V)
  insert k v [] = (k, v) ∷ []
  insert k v ((j, w) ∷ m) = ite (same k j) ((k, v) ∷ m) ((j, w) ∷ insert k v m)

  unfoldable pub remove : K → List (K × V) → List (K × V)
  remove k [] = []
  remove k ((j, v) ∷ m) = let rest = remove k m in ite (same k j) rest ((j, v) ∷ rest)

  pub lookup-insert :
      (k j : K) (v : V) (m : List (K × V))
      → lookup same j (insert k v m) ≡ ite (same j k) (some v) (lookup same j m)
  unfolding lookup insert
  lookup-insert k j v [] = refl
  lookup-insert k j v ((i, w) ∷ m) = ground (arith, lookup-insert k j v m)

  pub lookup-remove :
      (k j : K) (m : List (K × V))
      → lookup same j (remove k m) ≡ ite (same j k) none (lookup same j m)
  unfolding lookup remove
  lookup-remove k j [] = ground arith
  lookup-remove k j ((i, w) ∷ m) = ground (arith, lookup-remove k j m)

  -- A key stands at most once.
  abbrev pub HasDistinctKeys : List (K × V) → Type ℓ
  HasDistinctKeys [] = Unit
  HasDistinctKeys ((k, v) ∷ m) = (lookup same k m ≡ none) × HasDistinctKeys m

  pub insert-HasDistinctKeys :
      (k : K) (v : V) (m : List (K × V)) → HasDistinctKeys m → HasDistinctKeys (insert k v m)
  unfolding insert lookup
  insert-HasDistinctKeys k v [] h = (refl, tt)
  insert-HasDistinctKeys k v ((j, w) ∷ m) h =
      ground (arith, insert-HasDistinctKeys k v m h.1, lookup-insert k j v m)

  pub remove-HasDistinctKeys :
      (k : K) (m : List (K × V)) → HasDistinctKeys m → HasDistinctKeys (remove k m)
  unfolding remove
  remove-HasDistinctKeys k [] h = tt
  remove-HasDistinctKeys k ((j, w) ∷ m) h =
      ground (arith, remove-HasDistinctKeys k m h.1, lookup-remove k j m)

  pub remove_of_none : (k : K) (m : List (K × V)) → lookup same k m ≡ none → remove k m ≡ m
  unfolding remove lookup
  remove_of_none k [] h = refl
  remove_of_none k ((j, w) ∷ m) h = ground (arith, remove_of_none k m)

  pub length-insert_new :
      (k : K) (v : V) (m : List (K × V))
      → lookup same k m ≡ none
      → length (insert k v m) ≡ length m + 1
  unfolding insert lookup
  length-insert_new k v [] h = omega arith
  length-insert_new k v ((j, w) ∷ m) h = ground (arith, length-insert_new k v m)

  pub length-insert_found :
      (k : K) (v w : V) (m : List (K × V))
      → lookup same k m ≡ some w
      → length (insert k v m) ≡ length m
  unfolding insert lookup
  length-insert_found k v w [] h = cc
  length-insert_found k v w ((j, u) ∷ m) h = ground (arith, length-insert_found k v w m)

  pub length-remove :
      (k : K) (v : V) (m : List (K × V))
      → HasDistinctKeys m
      → lookup same k m ≡ some v
      → length (remove k m) + 1 ≡ length m
  unfolding remove lookup
  length-remove k v [] d h = ground arith
  length-remove k v ((j, w) ∷ m) d h = ground (arith, length-remove k v m d.1, remove_of_none k m)

-- Whether a set holds a value, so that `insert` finds it there.
unfoldable pub contains {ℓ} : {A : Type ℓ} → Discrete A → A → List A → Bool
contains same a [] = false
contains same a (x ∷ xs) = ite (same a x) true (contains same a xs)

-- A hash set is the list of its members: `remove` of one.
unfoldable pub forget {ℓ} : {A : Type ℓ} → Discrete A → A → List A → List A
forget same a [] = []
forget same a (x ∷ xs) = let rest = forget same a xs in ite (same a x) rest (x ∷ rest)

pub contains-forget :
    {A : Type 0} (same : Discrete A) (a b : A) (xs : List A)
    → contains same b (forget same a xs) ≡ ite (same b a) false (contains same b xs)
unfolding contains forget
contains-forget same a b [] = ground arith
contains-forget same a b (x ∷ xs) = ground (arith, contains-forget same a b xs)

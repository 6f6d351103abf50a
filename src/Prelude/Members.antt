-- ===== src/Prelude/Members.antt =====
-- Membership, removal and repetition in lists of keys, as functions into Bool and as types.
use Prim.Native.Nat.{ℕ, ◌+◌, ◌≤◌}
use mathlib.Core.Path.{◌≡◌, refl}
use mathlib.Core.Bool.{Bool, true, false}
use mathlib.Core.List.{List, [], ◌∷◌, ◌++◌}
use mathlib.Core.Option.{none, some}
use native.Mathlib.Omega.{arith}
use spectrum.Prelude.Tests.{if◌then◌else◌, ltb}
use spectrum.Prelude.Lists.{length}
use spectrum.Prelude.Keys.{Eq, ◌==◌}
use spectrum.Prelude.Maps.{Map, lookup, insert, erase}

module _ {ℓ} {A : Type ℓ} ⦃e : Eq A⦄ where
  -- std::find(xs.begin(), xs.end(), a) != xs.end()
  abbrev pub contains : A → List A → Bool
  contains a [] = false
  contains a (x ∷ xs) = if x == a then true else contains a xs

  -- std::list::remove: every entry equal to `a` goes.
  abbrev pub remove : A → List A → List A
  remove a [] = []
  remove a (x ∷ xs) = let rest = remove a xs in if x == a then rest else x ∷ rest

  -- How often `a` stands in a list.
  abbrev pub count : A → List A → ℕ
  count a [] = 0
  count a (x ∷ xs) = (if x == a then 1 else 0) + count a xs

  pub contains-count : (a : A) (xs : List A) → contains a xs ≡ ltb 0 (count a xs)
  contains-count a [] = ground arith
  contains-count a (x ∷ xs) = ground (arith, contains-count a xs)

  pub count-append : (a : A) (xs ys : List A) → count a (xs ++ ys) ≡ count a xs + count a ys
  count-append a [] ys = omega arith
  count-append a (x ∷ xs) ys = omega (arith, count-append a xs ys)

  pub count-remove :
      (a b : A) (xs : List A) → count b (remove a xs) ≡ (if a == b then 0 else count b xs)
  count-remove a b [] = ground arith
  count-remove a b (x ∷ xs) =
      ground (arith, e.same_iff x a, e.same_iff x b, e.same_iff a b, count-remove a b xs)

  pub length-remove-le : (a : A) (xs : List A) → length (remove a xs) ≤ length xs
  length-remove-le a [] = omega arith
  length-remove-le a (x ∷ xs) = ground (arith, length-remove-le a xs)

  pub contains-append :
      (a : A) (xs ys : List A)
      → contains a (xs ++ ys) ≡ (if contains a xs then true else contains a ys)
  contains-append a [] ys = refl
  contains-append a (x ∷ xs) ys = ground (arith, contains-append a xs ys)

  pub contains-remove :
      (a b : A) (xs : List A) → contains b (remove a xs) ≡ (if a == b then false else contains b xs)
  contains-remove a b [] = ground arith
  contains-remove a b (x ∷ xs) =
      ground (arith, e.same_iff x a, e.same_iff x b, e.same_iff a b, contains-remove a b xs)

-- The keys of a map, and how `insert` and `erase` change how often a key stands among them.
module _ {ℓ κ} {K : Type ℓ} {V : Type κ} ⦃e : Eq K⦄ where
  abbrev pub keys : Map K V → List K
  keys [] = []
  keys ((k, v) ∷ m) = k ∷ keys m

  pub count-keys-insert :
      (k j : K) (v : V) (m : Map K V)
      → count k (keys m) ≡ 0
      → count j (keys (insert k v m)) ≡ (if k == j then 1 else 0) + count j (keys m)
  unfolding insert
  count-keys-insert k j v [] h = omega arith
  count-keys-insert k j v ((i, w) ∷ m) h =
      ground (arith, e.same_iff i k, e.same_iff i j, e.same_iff k j, count-keys-insert k j v m)

  pub count-keys-erase :
      (k j : K) (m : Map K V)
      → count j (keys (erase k m)) ≡ (if k == j then 0 else count j (keys m))
  unfolding erase
  count-keys-erase k j [] = ground arith
  count-keys-erase k j ((i, w) ∷ m) =
      ground (arith, e.same_iff i k, e.same_iff i j, e.same_iff k j, count-keys-erase k j m)

  -- A key that is looked up with success stands among the keys.
  pub count-keys-lookup : (k : K) (m : Map K V) (v : V) → lookup k m ≡ some v → 1 ≤ count k (keys m)
  unfolding lookup
  count-keys-lookup k [] v h = cc
  count-keys-lookup k ((i, w) ∷ m) v h = ground (arith, count-keys-lookup k m v)

  pub lookup-of_count_zero : (k : K) (m : Map K V) → count k (keys m) ≡ 0 → lookup k m ≡ none
  unfolding lookup
  lookup-of_count_zero k [] h = refl
  lookup-of_count_zero k ((i, w) ∷ m) h = ground (arith, lookup-of_count_zero k m)

  pub length-insert_new :
      (k : K) (v : V) (m : Map K V) → count k (keys m) ≡ 0 → length (insert k v m) ≡ length m + 1
  unfolding insert
  length-insert_new k v [] h = omega arith
  length-insert_new k v ((i, w) ∷ m) h = ground (arith, length-insert_new k v m)

  pub length-erase_none :
      (k : K) (m : Map K V) → count k (keys m) ≡ 0 → length (erase k m) ≡ length m
  unfolding erase
  length-erase_none k [] h = omega arith
  length-erase_none k ((i, w) ∷ m) h = ground (arith, length-erase_none k m)

  pub length-erase_one :
      (k : K) (m : Map K V) → count k (keys m) ≡ 1 → length (erase k m) + 1 ≡ length m
  unfolding erase
  length-erase_one k [] h = omega arith
  length-erase_one k ((i, w) ∷ m) h = ground (arith, length-erase_none k m, length-erase_one k m)

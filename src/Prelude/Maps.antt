-- ===== src/Prelude/Maps.antt =====
-- `std::map` as an association list with at most one entry for a key: lookup, assignment, erasure.
use mathlib.Core.Path.{◌≡◌}
use mathlib.Core.List.{List, [], ◌∷◌}
use mathlib.Core.Option.{Option, none, some}
use native.Mathlib.Omega.{arith}
use spectrum.Prelude.Tests.{if◌then◌else◌}
use spectrum.Prelude.Keys.{Eq, ◌==◌, beq_self, beq_ne, beq_cases, ne_of_beq}

abbrev pub Map {ℓ κ} : Type ℓ → Type κ → Type (ℓ ⊔ κ)
Map K V = List (K × V)

module _ {ℓ κ} {K : Type ℓ} {V : Type κ} ⦃e : Eq K⦄ where
  -- m.find(k)
  unfoldable pub lookup : K → Map K V → Option V
  lookup k [] = none
  lookup k ((at, here) ∷ rest) = if at == k then some here else lookup k rest

  -- m[k] = v
  unfoldable pub insert : K → V → Map K V → Map K V
  insert k v [] = (k, v) ∷ []
  insert k v ((at, old) ∷ rest) = if at == k then (k, v) ∷ rest else (at, old) ∷ insert k v rest

  -- m.erase(k)
  unfoldable pub erase : K → Map K V → Map K V
  erase k [] = []
  erase k ((j, v) ∷ m) = let rest = erase k m in if j == k then rest else (j, v) ∷ rest

  pub lookup-erase :
      (k j : K) (m : Map K V) → lookup j (erase k m) ≡ (if k == j then none else lookup j m)
  unfolding lookup erase
  lookup-erase k j [] = ground arith
  lookup-erase k j ((i, w) ∷ m) =
      ground (arith, e.same_iff k j, e.same_iff i k, e.same_iff i j, lookup-erase k j m)

  pub lookup-insert :
      (key other : K) (x : V) (m : Map K V)
      → lookup other (insert key x m) ≡ (if key == other then some x else lookup other m)
  unfolding insert lookup
  lookup-insert key other x [] = ground arith
  lookup-insert key other x ((at, old) ∷ rest) = ground (
    arith,
    lookup-insert key other x rest,
    e.same_iff at key,
    e.same_iff at other,
    e.same_iff key other,
  )

  pub lookup-insert_self : (k : K) (v : V) (m : Map K V) → lookup k (insert k v m) ≡ some v
  lookup-insert_self k v m = simp (lookup-insert, beq_self)

  pub lookup-erase_self : (k : K) (m : Map K V) → lookup k (erase k m) ≡ none
  lookup-erase_self k m = simp (lookup-erase, beq_self)

pub ruleset map_laws = (lookup-insert, lookup-erase, beq_self)

-- ===== src/Presences/Highest.antt =====
-- `getHighestPriorityPresence`: no presence of the contact is better than the one that it finds.
use spectrum.Prelude.{
  ℕ, ◌≡◌, refl, ◌⊎◌, inl, inr, Bool, true, false, not, ◌&&◌, ◌||◌, List, [], ◌∷◌, Option, none,
  some, arith, Eq, ltb, All, Bool-cases, List-cases,
}
use spectrum.Prelude.Int.{ℤ}
use spectrum.Presences.{
  Presence, Entries, less, is_better, highest_of, get_all_presence, get_highest_priority_presence,
}

-- The order of pairs of a priority and an availability.
abbrev above : ℤ → ℕ → ℤ → ℕ → Bool
above x a y b = less y x || (not (less x y) && not (less y x) && ltb b a)

above_trans :
    (x y z : ℤ) (a b c : ℕ) → above x a y b ≡ false → above y b z c ≡ false → above x a z c ≡ false
above_trans x y z a b c h k = ground arith

above_asym : (x y : ℤ) (a b : ℕ) → above x a y b ≡ true → above y b x a ≡ false
above_asym x y a b h = ground arith

module _ {J S : Type 0} ⦃keys : Eq J⦄ (to_bare : J → J) (is_bare node_is_empty : J → Bool)
    (availability : S → ℕ) (blank : Presence J S) where
  abbrev better : Presence J S → Presence J S → Bool
  better = is_better to_bare is_bare node_is_empty availability blank

  abbrev best : Option (Presence J S) → List (Presence J S) → Option (Presence J S)
  best = highest_of to_bare is_bare node_is_empty availability blank

  better_trans :
      (p q r : Presence J S) → better p q ≡ false → better q r ≡ false → better p r ≡ false
  unfolding is_better
  better_trans p q r =
      above_trans p.priority q.priority r.priority (availability p.show) (availability q.show)
        (availability r.show)

  better_asym : (p q : Presence J S) → better p q ≡ true → better q p ≡ false
  unfolding is_better
  better_asym p q = above_asym p.priority q.priority (availability p.show) (availability q.show)

  better_irrefl : (p : Presence J S) → better p p ≡ false
  better_irrefl p = elim (Bool-cases (better p p)) [ inl h ↦ better_asym p p h | inr h ↦ h ]

  unfoldable pub Among : Presence J S → List (Presence J S) → Type 0
  Among k [] = ⊥
  Among k (p ∷ ps) = (k ≡ p) ⊎ Among k ps

  -- One of the presences, which none of them is better than.
  unfoldable pub IsBest : List (Presence J S) → Presence J S → Type 0
  IsBest ps k = Among k ps × All (λ p. better p k ≡ false) ps

  best-some :
      (h : Presence J S) (ps : List (Presence J S))
      → (k : Presence J S) × (best (some h) ps ≡ some k) × IsBest (h ∷ ps) k
  unfolding highest_of IsBest Among
  best-some h [] = (h, refl, (inl refl, (better_irrefl h, tt)))
  best-some h (p ∷ ps) = elim (Bool-cases (better p h)) [
    | inl e ↦
        let (k, q, (m, (b, bs))) = best-some p ps in
        (k, rw e q, (inr m, (better_trans h p k (better_asym p h e) b, (b, bs))))
    | inr e ↦
        let (k, q, (m, (b, bs))) = best-some h ps in
        (k, rw e q, (skip k m, (b, (better_trans p h k e b, bs))))
  ]
    where
      skip : (k : Presence J S) → (k ≡ h) ⊎ Among k ps → (k ≡ h) ⊎ (k ≡ p) ⊎ Among k ps
      skip k (inl e) = inl e
      skip k (inr m) = inr (inr m)

  -- Where the contact has no presence there is no highest one. Else the one found is among the
  -- contact's presences, and none of them has a higher priority, or the same priority and a show
  -- that counts as more available.
  pub get_highest_priority_presence-IsBest :
      (bare : J) (entries : Entries J S)
      → ((get_all_presence to_bare is_bare node_is_empty availability blank bare entries ≡ [])
          × (get_highest_priority_presence to_bare is_bare node_is_empty availability blank bare
                entries
              ≡ none))
        ⊎ ((k : Presence J S) × (get_highest_priority_presence to_bare is_bare node_is_empty
                availability blank bare entries
              ≡ some k)
            × IsBest
                (get_all_presence to_bare is_bare node_is_empty availability blank bare entries)
                k)
  unfolding get_highest_priority_presence highest_of
  get_highest_priority_presence-IsBest bare entries =
      elim (List-cases
        (get_all_presence to_bare is_bare node_is_empty availability blank bare entries)) [
          | inl e ↦ inl (e, rw e refl)
          | inr (p, ps, e) ↦ rw e (inr (best-some p ps))
        ]

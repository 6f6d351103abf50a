-- ===== src/Names/Unescape.antt =====
-- The loop that turns every `%` of a node into `@` ends, and does just that.
use spectrum.Prelude.{
  ℕ, zero, suc, ◌+◌, ◌≤◌, ◌≡◌, refl, ◌∙◌, sym, true, false, [], ◌∷◌, Text, nat_eq, ◌==◌,
  if◌then◌else◌, length, map, arith, inl, inr, Bool-cases,
}
use spectrum.Prelude.Members.{contains, count, contains-count}
use spectrum.Names.{replace_last, replace_while, uin_of_node}

abbrev swap : ℕ → ℕ → ℕ → ℕ
swap a b c = if c == a then b else c

module _ (a b : ℕ) (other : (b == a) ≡ false) where
  map-replace_last : (s : Text) → map (swap a b) (replace_last a b s) ≡ map (swap a b) s
  unfolding replace_last
  map-replace_last [] = refl
  map-replace_last (c ∷ s) = ground (arith, map-replace_last s)

  pub count-replace_last :
      (s : Text) → contains a s ≡ true → count a (replace_last a b s) + 1 ≡ count a s
  unfolding replace_last
  count-replace_last [] h = cc
  count-replace_last (c ∷ s) h = ground (arith, other, contains-count a s, count-replace_last s)

  map-swap_none : (s : Text) → contains a s ≡ false → map (swap a b) s ≡ s
  map-swap_none [] h = refl
  map-swap_none (c ∷ s) h = ground (arith, map-swap_none s)

  replace_while-map :
      (fuel : ℕ) (s : Text) → count a s ≤ fuel → replace_while fuel a b s ≡ map (swap a b) s
  unfolding replace_while
  replace_while-map zero s h = sym (map-swap_none s (ground (arith, contains-count a s)))
  replace_while-map (suc fuel) s h = elim (Bool-cases (contains a s)) [
    | inl some ↦ rw some (
        replace_while-map fuel (replace_last a b s) (ground (arith, count-replace_last s some))
        ∙ map-replace_last s)
    | inr none ↦ rw none (sym (map-swap_none s none))
  ]

count-le-length : (a : ℕ) (s : Text) → count a s ≤ length s
count-le-length a [] = omega arith
count-le-length a (c ∷ s) = ground (arith, count-le-length a s)

-- The loop that replaces the last `%` of a node by `@` while there is one ends within as many rounds
-- as the node has bytes, and makes of it what the replacement of each byte by itself would.
pub uin_of_node-map : (node : Text) → uin_of_node node ≡ map (λ c. if c == 37 then 64 else c) node
unfolding uin_of_node
uin_of_node-map node = replace_while-map 37 64 refl (length node) node (count-le-length 37 node)

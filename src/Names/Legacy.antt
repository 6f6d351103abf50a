-- ===== src/Names/Legacy.antt =====
-- Which legacy names come back from the node that a buddy's JID gets.
use spectrum.Prelude.{
  ℕ, ◌≡◌, ◌≢◌, ◌↔◌, ◌⊎◌, inl, inr, refl, ap, sym, Bool, true, false, [], ◌∷◌, Text, nat_eq, text_eq,
  ◌==◌, if◌then◌else◌, arith, Bool-cases, beq_cases, beq_self, ne_of_beq,
}
use spectrum.Prelude.Members.{contains, count}
use spectrum.Names.{replace_last, safe_name, jid_to_legacy_name}
use spectrum.Names.Unescape.{count-replace_last}

-- No `%` stands behind the last `@`, or anywhere where there is no `@`.
pub is_clean : Text → Bool
is_clean [] = true
is_clean (c ∷ s) =
    let rest = is_clean s in
    if contains 64 s then rest else if contains 37 s then false else if c == 37 then false else true

contains-replace_last :
    (a b : ℕ) (s : Text) → contains a s ≡ true → contains b (replace_last a b s) ≡ true
unfolding replace_last
contains-replace_last a b [] h = cc
contains-replace_last a b (c ∷ s) h = ground (arith, contains-replace_last a b s)

replace_last_none : (a b : ℕ) (s : Text) → contains a s ≡ false → replace_last a b s ≡ s
unfolding replace_last
replace_last_none a b [] h = refl
replace_last_none a b (c ∷ s) h = ground (arith, replace_last_none a b s)

replace_last-ne : (s : Text) → contains 37 s ≡ true → replace_last 37 64 s ≢ s
replace_last-ne s h e = absurd (ground (arith, count-replace_last 37 64 refl s h, ap (count 37) e))

there_and_back : (n : Text) → (replace_last 37 64 (replace_last 64 37 n) ≡ n) ↔ (is_clean n ≡ true)
unfolding replace_last is_clean
there_and_back [] = ground arith
there_and_back (c ∷ s) = ground (
  arith,
  there_and_back s,
  contains-replace_last 64 37 s,
  replace_last_none 37 64 s,
  replace_last-ne s,
)

unchanged : (n : Text) → (replace_last 37 64 n ≡ n) ↔ ((n ≢ n) ⊎ (contains 37 n ≡ false))
unchanged n = elim (Bool-cases (contains 37 n)) [
  | inl h ↦ ((λ q. absurd (replace_last-ne n h q)), λ p. ground (arith, p))
  | inr h ↦ ((λ _. inr h), λ _. replace_last_none 37 64 n h)
]

module _ (escape unescape : Text → Text) (n : Text) (escaped : unescape (escape n) ≡ n)
    (plain : unescape (replace_last 64 37 n) ≡ replace_last 64 37 n) where
  -- For a name that its escaped node gives back when unescaped, and whose other node has nothing to
  -- unescape: as an escaped node the name comes back exactly if escaping changes it or it has no
  -- `%`; as the other node it comes back exactly if no `%` stands behind its last `@`, or anywhere in
  -- a name without `@`.
  pub jid_to_legacy_name-safe_name :
      ((jid_to_legacy_name escape unescape (safe_name escape unescape true n) ≡ n)
        ↔ ((escape n ≢ n) ⊎ (contains 37 n ≡ false)))
      × ((jid_to_legacy_name escape unescape (safe_name escape unescape false n) ≡ n)
          ↔ (is_clean n ≡ true))
  unfolding jid_to_legacy_name safe_name
  jid_to_legacy_name-safe_name = (
    elim (beq_cases n (escape n)) [
      | inl e ↦ rw (← e, (rw (← e) at escaped), beq_self n) (unchanged n)
      | inr e ↦ rw (escaped, e) ((λ _. inl (λ q. ne_of_beq n (escape n) e (sym q))), λ _. refl)
    ],
    rw (plain, beq_self (replace_last 64 37 n)) (there_and_back n),
  )

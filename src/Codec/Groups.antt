-- ===== src/Codec/Groups.antt =====
-- Which lists of groups come back from the database.
use spectrum.Prelude.{
  ℕ, ◌<◌, ◌≡◌, ◌↔◌, refl, ap, ◌∙◌, sym, Bool, true, false, List, [], ◌∷◌, ◌++◌, Text, nat_eq, ◌==◌,
  if◌then◌else◌, length, is_empty, arith, Bool-cases, inl, inr, append-nil,
}
use spectrum.Prelude.Members.{contains}
use spectrum.Codec.{
  erase_last, lines, serialize_groups, cons_first, split, drop_empty_last, deserialize_groups,
}

-- No group has a newline.
pub all_plain : List Text → Bool
all_plain [] = true
all_plain (group ∷ groups) =
    let rest = all_plain groups in if contains 10 group then false else rest

pub last_is_empty : List Text → Bool
last_is_empty [] = false
last_is_empty (group ∷ []) = is_empty group
last_is_empty (group ∷ next ∷ groups) = last_is_empty (next ∷ groups)

-- The groups with newlines between them.
join : List Text → Text
join [] = []
join (group ∷ []) = group
join (group ∷ next ∷ groups) = group ++ 10 ∷ join (next ∷ groups)

erase_last-append :
    (s : Text) (c : ℕ) (r : Text) → erase_last (s ++ c ∷ r) ≡ s ++ erase_last (c ∷ r)
unfolding erase_last
erase_last-append [] c r = refl
erase_last-append (d ∷ []) c r = refl
erase_last-append (d ∷ e ∷ s) c r = ap (◌∷◌ d) (erase_last-append (e ∷ s) c r)

erase_last-cons : (c : ℕ) (h r : Text) → erase_last (c ∷ h ++ 10 ∷ r) ≡ c ∷ erase_last (h ++ 10 ∷ r)
unfolding erase_last
erase_last-cons c [] r = refl
erase_last-cons c (d ∷ h) r = refl

serialize_groups-join : (gs : List Text) → serialize_groups gs ≡ join gs
unfolding serialize_groups lines join erase_last
serialize_groups-join [] = refl
serialize_groups-join (g ∷ []) = erase_last-append g 10 [] ∙ append-nil g
serialize_groups-join (g ∷ h ∷ gs) =
    erase_last-append g 10 (lines (h ∷ gs))
    ∙ ap (λ r. g ++ r)
        (erase_last-cons 10 h (lines gs) ∙ ap (◌∷◌ 10) (serialize_groups-join (h ∷ gs)))

all_plain-cons_first :
    (c : ℕ) (parts : List Text)
    → (c == 10) ≡ false
    → all_plain parts ≡ true
    → all_plain (cons_first c parts) ≡ true
unfolding all_plain cons_first
all_plain-cons_first c [] h k = refl
all_plain-cons_first c (part ∷ parts) h k = ground arith

all_plain-split : (s : Text) → all_plain (split s) ≡ true
unfolding all_plain split
all_plain-split [] = refl
all_plain-split (c ∷ s) = ground (arith, all_plain-split s, all_plain-cons_first c (split s))

split-plain : (g : Text) → contains 10 g ≡ false → split g ≡ g ∷ []
unfolding split cons_first
split-plain [] h = refl
split-plain (c ∷ g) h = ground (arith, split-plain g)

split-line : (g r : Text) → contains 10 g ≡ false → split (g ++ 10 ∷ r) ≡ g ∷ split r
unfolding split cons_first
split-line [] r h = refl
split-line (c ∷ g) r h = ground (arith, split-line g r)

split-join :
    (g : Text) (gs : List Text) → all_plain (g ∷ gs) ≡ true → split (join (g ∷ gs)) ≡ g ∷ gs
unfolding join all_plain
split-join g [] h = split-plain g (ground arith)
split-join g (k ∷ gs) h =
    split-line g (join (k ∷ gs)) (ground arith) ∙ ap (◌∷◌ g) (split-join k gs (ground arith))

all_plain-drop :
    (parts : List Text) → all_plain parts ≡ true → all_plain (drop_empty_last parts) ≡ true
unfolding all_plain drop_empty_last
all_plain-drop [] h = refl
all_plain-drop (part ∷ []) h = ground arith
all_plain-drop (part ∷ next ∷ parts) h = ground (arith, all_plain-drop (next ∷ parts))

all_plain-deserialize : (s : Text) → all_plain (deserialize_groups s) ≡ true
unfolding deserialize_groups all_plain
all_plain-deserialize s = ground (arith, all_plain-drop (split s) (all_plain-split s))

drop_keeps : (parts : List Text) → last_is_empty parts ≡ false → drop_empty_last parts ≡ parts
unfolding last_is_empty drop_empty_last
drop_keeps [] h = refl
drop_keeps (part ∷ []) h = ground arith
drop_keeps (part ∷ next ∷ parts) h = ap (◌∷◌ part) (drop_keeps (next ∷ parts) h)

drop_cuts :
    (parts : List Text) → last_is_empty parts ≡ true → length (drop_empty_last parts) < length parts
unfolding last_is_empty drop_empty_last
drop_cuts [] h = cc
drop_cuts (part ∷ []) h = ground arith
drop_cuts (part ∷ next ∷ parts) h = ground (arith, drop_cuts (next ∷ parts) h)

-- Where the joined text is empty there is one group, and it is empty.
join_empty :
    (g : Text) (gs : List Text) → is_empty (join (g ∷ gs)) ≡ true → last_is_empty (g ∷ gs) ≡ true
unfolding join last_is_empty
join_empty g [] h = h
join_empty [] (k ∷ gs) h = cc
join_empty (c ∷ g) (k ∷ gs) h = cc

module _ (g : Text) (gs : List Text) where
  kept :
      all_plain (g ∷ gs) ≡ true
      → is_empty (join (g ∷ gs)) ≡ false
      → deserialize_groups (join (g ∷ gs)) ≡ drop_empty_last (g ∷ gs)
  unfolding deserialize_groups
  kept p e = rw (e, split-join g gs p) refl

  gone : is_empty (join (g ∷ gs)) ≡ true → deserialize_groups (join (g ∷ gs)) ≡ []
  unfolding deserialize_groups
  gone e = rw e refl

  there :
      deserialize_groups (join (g ∷ gs)) ≡ g ∷ gs
      → (all_plain (g ∷ gs) ≡ true) × (last_is_empty (g ∷ gs) ≡ false)
  there h =
      let p : all_plain (g ∷ gs) ≡ true =
        sym (ap all_plain h) ∙ all_plain-deserialize (join (g ∷ gs)) in
      (
        p,
        elim (Bool-cases (last_is_empty (g ∷ gs))) [
          | inr q ↦ q
          | inl q ↦ elim (Bool-cases (is_empty (join (g ∷ gs)))) [
            | inl e ↦ cc (h, gone e)
            | inr e ↦
                absurd (omega (arith, drop_cuts (g ∷ gs) q, ap length h, ap length (kept p e)))
          ]
        ],
      )

  back :
      all_plain (g ∷ gs) ≡ true
      → last_is_empty (g ∷ gs) ≡ false
      → deserialize_groups (join (g ∷ gs)) ≡ g ∷ gs
  back p q = elim (Bool-cases (is_empty (join (g ∷ gs)))) [
    | inl e ↦ cc (q, join_empty g gs e)
    | inr e ↦ kept p e ∙ drop_keeps (g ∷ gs) q
  ]

nothing : (all_plain [] ≡ true) × (last_is_empty [] ≡ false)
unfolding all_plain last_is_empty
nothing = (refl, refl)

none_back : deserialize_groups (serialize_groups []) ≡ []
unfolding deserialize_groups serialize_groups lines erase_last
none_back = refl

-- A list of groups comes back from the text that is stored for it exactly if no group has a newline
-- and the last group, if there is one, is not empty.
pub deserialize_groups-serialize_groups :
    (groups : List Text)
    → (deserialize_groups (serialize_groups groups) ≡ groups)
      ↔ ((all_plain groups ≡ true) × (last_is_empty groups ≡ false))
deserialize_groups-serialize_groups [] = (λ _. nothing, λ _. none_back)
deserialize_groups-serialize_groups (g ∷ gs) =
    rw (serialize_groups-join (g ∷ gs)) (there g gs, λ (p, q). back g gs p q)

-- ===== src/Roster/Found.antt =====
-- What is found in a roster after each of its operations.
use spectrum.Prelude.{
  ℕ, ◌≡◌, ap, ◌∙◌, false, Option, none, some, Text, nat_eq, text_eq, ◌==◌, if◌then◌else◌,
  Option-cases, inl, inr, arith,
}
use spectrum.Prelude.Maps.{lookup, insert, erase, lookup-insert, lookup-erase}
use spectrum.Roster.Store.{
  Effect, Roster, emit, queue_buddy, remove_stored, unqueue, found, get_buddy, set_buddy,
  unset_buddy, remove_found, remove_buddy,
}

-- Who stands in the roster under a key; a null pointer is nobody.
abbrev pub find : Text → Roster → Option ℕ
find key s = found (lookup key s.buddies)

-- What an operation does not touch.
pub record Same (s t : Roster) : Type 0 where
  pub buddies : t.buddies ≡ s.buddies
  pub live : t.live ≡ s.live
  pub names : (a : ℕ) → (t.buddy a).name ≡ (s.buddy a).name
  pub asks : (a : ℕ) → (t.buddy a).subscription ≡ (s.buddy a).subscription
  pub mode : t.server_mode ≡ s.server_mode

pub queue_buddy-Same : (a : ℕ) (s : Roster) → Same s (queue_buddy a s)
unfolding queue_buddy
queue_buddy-Same a s = ground arith

pub remove_stored-Same : (a : ℕ) (s : Roster) → Same s (remove_stored a s)
unfolding remove_stored
remove_stored-Same a s = ground arith

pub unqueue-Same : (a : ℕ) (s : Roster) → Same s (unqueue a s)
unfolding unqueue
unqueue-Same a s = ground arith

module _ (lower : Text → Text) where
  pub find-get_buddy :
      (name other : Text) (s : Roster) → find other (get_buddy lower name s).1 ≡ find other s
  unfolding get_buddy
  find-get_buddy name other s = elim (Option-cases (lookup (lower name) s.buddies)) [
    | inl e ↦ ground (
      arith,
      lookup-insert (lower name) other none s.buddies,
      text_eq.same_iff (lower name) other,
    )
    | inr (o, e) ↦ ground arith
  ]

  pub get_buddy-find : (name : Text) (s : Roster) → (get_buddy lower name s).0 ≡ find (lower name) s
  unfolding get_buddy
  get_buddy-find name s = ground arith

  -- But for a null pointer that is added to it, the roster is the same.
  pub others-get_buddy :
      (name : Text) (s : Roster)
      → ((get_buddy lower name s).1.live ≡ s.live)
        × ((get_buddy lower name s).1.buddy ≡ s.buddy)
        × ((get_buddy lower name s).1.server_mode ≡ s.server_mode)
        × ((get_buddy lower name s).1.next ≡ s.next)
  unfolding get_buddy
  others-get_buddy name s = ground arith

  pub find-set_buddy :
      (a : ℕ) (other : Text) (s : Roster)
      → find other (set_buddy lower a s)
        ≡ (if lower (s.buddy a).name == other then some a else find other s)
  unfolding set_buddy
  find-set_buddy a other s =
      let t = emit (Effect.do_add a) (
        emit (Effect.buddy_set a)
          (record s { buddies = insert (lower (s.buddy a).name) (some a) s.buddies })) in
      ap (λ m. found (lookup other m)) (queue_buddy-Same a t).buddies
      ∙ ground (arith, lookup-insert (lower (s.buddy a).name) other (some a) s.buddies)

  buddies-remove_found :
      (a : ℕ) (s : Roster)
      → (remove_found lower (some a) s).buddies ≡ erase (lower (s.buddy a).name) s.buddies
  unfolding remove_found unset_buddy unqueue remove_stored
  buddies-remove_found a s = ground arith

  find-remove_found :
      (a : ℕ) (other : Text) (s : Roster)
      → find other (remove_found lower (some a) s)
        ≡ (if lower (s.buddy a).name == other then none else find other s)
  find-remove_found a other s =
      ap (λ m. found (lookup other m)) (buddies-remove_found a s)
      ∙ ground (arith, lookup-erase (lower (s.buddy a).name) other s.buddies)

  live-remove_found :
      (a b : ℕ) (s : Roster)
      → (remove_found lower (some a) s).live b ≡ (if a == b then false else s.live b)
  unfolding remove_found unset_buddy unqueue remove_stored
  live-remove_found a b s = ground arith

  module _ (lower_twice : (n : Text) → lower (lower n) ≡ lower n) (name : Text) (a : ℕ) (s : Roster)
      (here : find (lower name) s ≡ some a) (named : lower (s.buddy a).name ≡ lower name) where
    removed :
        remove_buddy lower name s ≡ remove_found lower (some a) (get_buddy lower (lower name) s).1
    unfolding remove_buddy
    removed =
        ap (λ o. remove_found lower o (get_buddy lower (lower name) s).1)
          (get_buddy-find (lower name) s ∙ ap (λ k. find k s) (lower_twice name) ∙ here)

    pub find-remove_buddy :
        (other : Text)
        → find other (remove_buddy lower name s)
          ≡ (if lower name == other then none else find other s)
    find-remove_buddy other =
        ap (find other) removed
        ∙ find-remove_found a other (get_buddy lower (lower name) s).1
        ∙ ground
            (arith, others-get_buddy (lower name) s, named, find-get_buddy (lower name) other s)

    pub live-remove_buddy :
        (b : ℕ) → (remove_buddy lower name s).live b ≡ (if a == b then false else s.live b)
    live-remove_buddy b =
        ap (λ t. t.live b) removed
        ∙ live-remove_found a b (get_buddy lower (lower name) s).1
        ∙ ground (arith, others-get_buddy (lower name) s)

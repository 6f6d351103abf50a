-- ===== src/Roster/Storage.antt =====
-- RosterStorage::storeBuddies (libtransport/RosterStorage.cpp), and the setters of a LocalBuddy that
-- queue him (libtransport/LocalBuddy.cpp).
use spectrum.Prelude.{
  ℕ, ◌≡◌, refl, Bool, true, false, List, [], ◌∷◌, Option, none, some, Text, nat_eq, text_eq, ◌==◌,
  if◌then◌else◌, is_empty, All, arith,
}
use spectrum.Prelude.Maps.{Map}
use spectrum.Roster.Store.{Buddy, Effect, Roster, emit, set_buddy_at, queue_buddy}

-- The virtual functions of StorageBackend that store buddies; `add_buddy` gives the new row's id.
pub record BuddyStorage (D : Type 0) : Type 0 where
  pub add_buddy : ℕ → Buddy → D → ℕ × D
  pub update_buddy : ℕ → Buddy → D → D

module _ {D : Type 0} (backend : BuddyStorage D) (user_id : ℕ) where
  unfoldable pub store_one : ℕ → Option ℕ → Roster × D → Roster × D
  store_one a (some id) (s, d) = (s, backend.update_buddy user_id (s.buddy a) d)
  store_one a none (s, d) =
      let added = backend.add_buddy user_id (s.buddy a) d in
      (set_buddy_at a (record (s.buddy a) { id = some added.0 }) s, added.1)

  unfoldable pub store_loop : Map Text ℕ → Roster × D → Roster × D
  store_loop [] r = r
  store_loop ((_, a) ∷ rest) r = store_loop rest (store_one a (r.0.buddy a).id r)

  -- False where nothing is queued.
  unfoldable pub store_buddies : Roster × D → (Roster × D) × Bool
  store_buddies r = elim r.0.queue [
    | none ↦ (r, false)
    | some q ↦
        if is_empty q
        then (r, false)
        else (let stored = store_loop q r in
            ((record stored.0 { queue = some [] }, stored.1), true))
  ]

  abbrev pub has_id : ℕ → Roster → Bool
  has_id a s = elim (s.buddy a).id [ none ↦ false | some id ↦ true ]

  has_id-store_one :
      (a b : ℕ) (o : Option ℕ) (s : Roster) (d : D)
      → has_id b s ≡ true
      → has_id b (store_one a o (s, d)).0 ≡ true
  unfolding store_one
  has_id-store_one a b none s d h = ground arith
  has_id-store_one a b (some id) s d h = h

  has_id-store_loop :
      (q : Map Text ℕ) (b : ℕ) (s : Roster) (d : D)
      → has_id b s ≡ true
      → has_id b (store_loop q (s, d)).0 ≡ true
  unfolding store_loop
  has_id-store_loop [] b s d h = h
  has_id-store_loop ((k, a) ∷ q) b s d h =
      has_id-store_loop q b _ _ (has_id-store_one a b (s.buddy a).id s d h)

  own_id :
      (a : ℕ) (o : Option ℕ) (s : Roster) (d : D)
      → (s.buddy a).id ≡ o
      → has_id a (store_one a o (s, d)).0 ≡ true
  unfolding store_one
  own_id a none s d e = ground arith
  own_id a (some id) s d e = ground arith

  -- Everybody who was queued has a row in the database.
  pub store_loop-has_id :
      (q : Map Text ℕ) (s : Roster) (d : D) → All (λ e. has_id e.1 (store_loop q (s, d)).0 ≡ true) q
  unfolding store_loop
  store_loop-has_id [] s d = tt
  store_loop-has_id ((k, a) ∷ q) s d =
      let r = store_one a (s.buddy a).id (s, d) in
      (
        has_id-store_loop q a r.0 r.1 (own_id a (s.buddy a).id s d refl),
        store_loop-has_id q r.0 r.1,
      )

abbrev pub same_texts : List Text → List Text → Bool
same_texts [] [] = true
same_texts (a ∷ as_) (b ∷ bs) = let rest = same_texts as_ bs in if a == b then rest else false
same_texts _ _ = false

unfoldable pub set_alias : ℕ → Text → Roster → Roster
set_alias a alias s =
    let t = set_buddy_at a (record (s.buddy a) { alias = alias }) s in
    if (s.buddy a).alias == alias then t else queue_buddy a (emit (Effect.do_update a) t)

unfoldable pub set_groups : ℕ → List Text → Roster → Roster
set_groups a groups s =
    let t = set_buddy_at a (record (s.buddy a) { groups = groups }) s in
    if same_texts (s.buddy a).groups groups then t else queue_buddy a (emit (Effect.do_update a) t)

unfoldable pub set_icon_hash : ℕ → Text → Roster → Roster
set_icon_hash a hash s =
    let t = set_buddy_at a (record (s.buddy a) { icon_hash = hash }) s in
    if (s.buddy a).icon_hash == hash then t else emit (Effect.send_presences a) (queue_buddy a t)

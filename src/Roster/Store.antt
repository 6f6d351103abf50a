-- ===== src/Roster/Store.antt =====
-- The state of a roster, and how buddies come into it, out of it and into the database's queue.
use spectrum.Prelude.{
  ℕ, ◌+◌, Bool, true, false, List, [], ◌∷◌, ◌++◌, Option, none, some, Text, nat_eq, text_eq, ◌==◌,
  if◌then◌else◌, is_empty,
}
use spectrum.Prelude.Maps.{Map, lookup, insert, erase}
use spectrum.Presences.{PresenceType}

pub data Subscription : Type 0 where
  both ask : Subscription

-- `id` is `none` where the code has -1.
pub record Buddy : Type 0 where
  pub id : Option ℕ
  pub name : Text
  pub alias : Text
  pub groups : List Text
  pub subscription : Subscription
  pub escaped : Bool
  pub icon_hash : Text

pub data Effect : Type 0 where
  buddy_added buddy_removed buddy_set buddy_unset : ℕ → Effect
  do_add do_remove do_update : ℕ → Effect
  send_presences : ℕ → Effect
  answer : PresenceType → Effect
  db_remove : ℕ → Effect

pub record Roster : Type 0 where
  pub server_mode : Bool
  pub enable_remove_buddy : Bool
  pub buddies : Map Text (Option ℕ)
  pub buddy : ℕ → Buddy
  pub live : ℕ → Bool
  pub next : ℕ
  -- The buddies that wait to be stored; `none` without a storage backend.
  pub queue : Option (Map Text ℕ)
  pub effects : List Effect

abbrev pub emit : Effect → Roster → Roster
emit x s = record s { effects = s.effects ++ x ∷ [] }

abbrev pub set_live : ℕ → Bool → Roster → Roster
set_live a on s = record s { live = λ b. if a == b then on else s.live b }

abbrev pub set_buddy_at : ℕ → Buddy → Roster → Roster
set_buddy_at a x s = record s { buddy = λ b. if a == b then x else s.buddy b }

-- RosterStorage::storeBuddy
unfoldable pub queue_buddy : ℕ → Roster → Roster
queue_buddy a s = elim s.queue [
  | none ↦ s
  | some q ↦
      if is_empty (s.buddy a).name
      then s
      else record s { queue = some (insert (s.buddy a).name a q) }
]

-- RosterStorage::removeBuddy
unfoldable pub remove_stored : ℕ → Roster → Roster
remove_stored a s = elim s.queue [
  | none ↦ s
  | some q ↦ elim (s.buddy a).id [ none ↦ s | some id ↦ emit (Effect.db_remove id) s ]
]

-- RosterStorage::removeBuddyFromQueue
unfoldable pub unqueue : ℕ → Roster → Roster
unqueue a s = elim s.queue [
  | none ↦ s
  | some q ↦ record s { queue = some (erase (s.buddy a).name q) }
]

abbrev pub found : Option (Option ℕ) → Option ℕ
found none = none
found (some o) = o

-- `lower` is `boost::locale::to_lower`.
module _ (lower : Text → Text) where
  -- `m_buddies[name]`, which puts a null pointer where there is nothing.
  unfoldable pub get_buddy : Text → Roster → Option ℕ × Roster
  get_buddy name s = elim (lookup (lower name) s.buddies) [
    | none ↦ (none, record s { buddies = insert (lower name) none s.buddies })
    | some o ↦ (o, s)
  ]

  unfoldable pub set_buddy : ℕ → Roster → Roster
  set_buddy a s = queue_buddy a (
      emit (Effect.do_add a) (
        emit (Effect.buddy_set a)
          (record s { buddies = insert (lower (s.buddy a).name) (some a) s.buddies })))

  unfoldable pub unset_buddy : ℕ → Roster → Roster
  unset_buddy a s =
      emit (Effect.buddy_unset a)
        (unqueue a (record s { buddies = erase (lower (s.buddy a).name) s.buddies }))

  unfoldable pub remove_found : Option ℕ → Roster → Roster
  remove_found none s = s
  remove_found (some a) s =
      set_live a false (unset_buddy a (remove_stored a (emit (Effect.do_remove a) s)))

  unfoldable pub remove_buddy : Text → Roster → Roster
  remove_buddy name s = let r = get_buddy (lower name) s in remove_found r.0 r.1

  -- `createBuddy` for a name that is not in the roster.
  unfoldable pub create_buddy : Text → Bool → Roster → Roster
  create_buddy name escaped s = set_live s.next true (
      set_buddy_at s.next
        (record {
          id = none;
          name = name;
          alias = [];
          groups = [];
          subscription = Subscription.both;
          escaped = escaped;
          icon_hash = [];
        })
        (record s { next = s.next + 1 }))

-- ===== src/Presences.antt =====
-- PresenceOracle (libtransport/PresenceOracle.cpp): the presences that users sent to the transport,
-- by bare JID and then by full JID. `J` is Swift's JID with `to_bare`, `is_bare` and `node_is_empty`,
-- `S` its show values with their `availability` order, and `blank` what `new Presence()` makes; all
-- of these are parameters. A std::map is an association list, whose order no theorem depends on.
pub mod Highest
pub mod Resources
mod Tests
use spectrum.Prelude.{
  ℕ, Bool, true, false, not, ◌&&◌, ◌||◌, List, [], ◌∷◌, Option, none, some, Text, Eq, ◌==◌, ltb,
  if◌then◌else◌, length,
}
use spectrum.Prelude.Int.{ℤ, pos, negsuc}
use spectrum.Prelude.Maps.{Map, lookup, insert, erase}

pub data PresenceType : Type 0 where
  available unavailable subscribe subscribed unsubscribe unsubscribed probe error : PresenceType

abbrev pub is_available : PresenceType → Bool
is_available available = true
is_available _ = false

abbrev pub is_unavailable : PresenceType → Bool
is_unavailable unavailable = true
is_unavailable _ = false

-- Subscribe or Subscribed.
abbrev pub asks_subscription : PresenceType → Bool
asks_subscription subscribe = true
asks_subscription subscribed = true
asks_subscription _ = false

-- Unsubscribe or Unsubscribed.
abbrev pub ends_subscription : PresenceType → Bool
ends_subscription unsubscribe = true
ends_subscription unsubscribed = true
ends_subscription _ = false

pub record Presence (J S : Type 0) : Type 0 where
  pub sender : J
  pub receiver : J
  pub kind : PresenceType
  pub priority : ℤ
  pub show : S
  pub status : Text

abbrev pub Entries : Type 0 → Type 0 → Type 0
Entries J S = Map J (Map J (Presence J S))

abbrev pub less : ℤ → ℤ → Bool
less (pos a) (pos b) = ltb a b
less (pos a) (negsuc b) = false
less (negsuc a) (pos b) = true
less (negsuc a) (negsuc b) = ltb b a

module _ {J S : Type 0} ⦃keys : Eq J⦄ (to_bare : J → J) (is_bare node_is_empty : J → Bool)
    (availability : S → ℕ) (blank : Presence J S) where
  -- An end of a subscription counts as an unavailable presence of the bare JID.
  unfoldable pub passed_presence : Presence J S → Presence J S
  passed_presence p =
      if ends_subscription p.kind
      then record blank { kind = unavailable; sender = to_bare p.sender; status = p.status }
      else p

  -- `entries_[bareJID]`
  unfoldable pub presences_of : J → Entries J S → Map J (Presence J S)
  presences_of bare entries = elim (lookup bare entries) [ none ↦ [] | some m ↦ m ]

  unfoldable pub drop_stale : Presence J S → Map J (Presence J S) → Map J (Presence J S)
  drop_stale p m =
      if is_bare (passed_presence p).sender && is_unavailable p.kind
      then []
      else if is_available (passed_presence p).kind
      then erase (to_bare p.sender) m
      else m

  unfoldable pub store_presence : Presence J S → Map J (Presence J S) → Map J (Presence J S)
  store_presence passed m =
      if is_unavailable passed.kind && ltb 1 (length m)
      then erase passed.sender m
      else insert passed.sender passed m

  -- The new entries, and the presence that listeners are told.
  unfoldable pub handle_incoming_presence :
      Presence J S → Entries J S → Entries J S × Option (Presence J S)
  handle_incoming_presence p entries =
      if not (node_is_empty p.receiver) || asks_subscription p.kind then (entries, none) else (
        insert (to_bare p.sender)
            (store_presence (passed_presence p)
              (drop_stale p (presences_of (to_bare p.sender) entries)))
            entries,
        some (passed_presence p),
      )

  unfoldable pub available_changed : Bool → Entries J S → Entries J S
  available_changed on entries = if on then [] else entries

  unfoldable pub clear_presences : J → Entries J S → Entries J S
  clear_presences bare entries = insert bare [] entries

  unfoldable pub get_last_presence : J → Entries J S → Option (Presence J S)
  get_last_presence j entries = lookup j (presences_of (to_bare j) entries)

  abbrev values : Map J (Presence J S) → List (Presence J S)
  values [] = []
  values ((j, p) ∷ m) = p ∷ values m

  unfoldable pub get_all_presence : J → Entries J S → List (Presence J S)
  get_all_presence bare entries = values (presences_of bare entries)

  -- The test of the loop in getHighestPriorityPresence.
  unfoldable pub is_better : Presence J S → Presence J S → Bool
  is_better p q =
      less q.priority p.priority
      || (not (less p.priority q.priority)
          && not (less q.priority p.priority)
          && ltb (availability q.show) (availability p.show))

  unfoldable pub highest_of : Option (Presence J S) → List (Presence J S) → Option (Presence J S)
  highest_of h [] = h
  highest_of none (p ∷ ps) = highest_of (some p) ps
  highest_of (some h) (p ∷ ps) = highest_of (some (if is_better p h then p else h)) ps

  unfoldable pub get_highest_priority_presence : J → Entries J S → Option (Presence J S)
  get_highest_priority_presence bare entries = highest_of none (get_all_presence bare entries)

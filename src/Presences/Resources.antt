-- ===== src/Presences/Resources.antt =====
-- What an incoming presence leaves of the presences of its sender's resources.
use spectrum.Prelude.{
  ℕ, ◌≡◌, refl, Bool, true, Option, none, some, arith, Eq, ◌==◌, if◌then◌else◌, length, beq_self,
  ◌<◌,
}
use spectrum.Prelude.Maps.{Map, lookup, insert, erase, lookup-insert, lookup-erase}
use spectrum.Presences.{
  Presence, Entries, available, ends_subscription, passed_presence, presences_of, drop_stale,
  store_presence, handle_incoming_presence, get_last_presence,
}

module _ {J S : Type 0} ⦃keys : Eq J⦄ (to_bare : J → J) (is_bare node_is_empty : J → Bool)
    (availability : S → ℕ) (blank : Presence J S) where
  abbrev pub handle : Presence J S → Entries J S → Entries J S
  handle p entries =
      (handle_incoming_presence to_bare is_bare node_is_empty availability blank p entries).0

  abbrev pub last : J → Entries J S → Option (Presence J S)
  last = get_last_presence to_bare is_bare node_is_empty availability blank

  abbrev pub known : J → Entries J S → Map J (Presence J S)
  known = presences_of to_bare is_bare node_is_empty availability blank

  known-insert :
      (b : J) (m : Map J (Presence J S)) (entries : Entries J S) → known b (insert b m entries) ≡ m
  unfolding presences_of
  known-insert b m entries = ground (arith, lookup-insert b b m entries, beq_self b)

  last-known :
      (j b : J) (m : Map J (Presence J S)) (entries : Entries J S)
      → to_bare j ≡ b
      → last j (insert b m entries) ≡ lookup j m
  unfolding get_last_presence
  last-known j b m entries e = rw (e, known-insert b m entries) refl

  last-before :
      (j b : J) (entries : Entries J S)
      → to_bare j ≡ b
      → last j entries ≡ lookup j (known b entries)
  unfolding get_last_presence
  last-before j b entries e = rw e refl

  module _ (p : Presence J S) (entries : Entries J S) (r : node_is_empty p.receiver ≡ true) where
    abbrev bare : J
    bare = to_bare p.sender

    handle_available :
        p.kind ≡ available
        → handle p entries
          ≡ insert bare (insert p.sender p (erase bare (known bare entries))) entries
    unfolding handle_incoming_presence passed_presence drop_stale store_presence
    handle_available a = ground (arith, a, r)

    handle_unsubscribe :
        ends_subscription p.kind ≡ true
        → 1 < length (known bare entries)
        → handle p entries ≡ insert bare (erase bare (known bare entries)) entries
    unfolding handle_incoming_presence passed_presence drop_stale store_presence
    handle_unsubscribe a many = ground (arith, a, r)

    -- A presence for the transport that says that a resource is available is the last one known of
    -- that resource; the contact's other resources keep theirs, and his bare JID loses its own.
    last-available :
        (j : J)
        → p.kind ≡ available
        → to_bare j ≡ to_bare p.sender
        → last j (handle p entries) ≡ (
            if p.sender == j
            then some p
            else if to_bare p.sender == j
            then none
            else last j entries)
    last-available j a e =
        rw
          (
            handle_available a,
            last-known j bare (insert p.sender p (erase bare (known bare entries))) entries e,
          )
          (ground (
            arith,
            lookup-insert p.sender j p (erase bare (known bare entries)),
            lookup-erase bare j (known bare entries),
            last-before j bare entries e,
          ))

    -- The end of a subscription, told to the transport by a contact with more than one entry, leaves
    -- the last presences of all his resources as they were: only the entry of his bare JID goes.
    last-unsubscribe :
        (j : J)
        → ends_subscription p.kind ≡ true
        → to_bare j ≡ to_bare p.sender
        → 1 < length (known (to_bare p.sender) entries)
        → last j (handle p entries) ≡ (if to_bare p.sender == j then none else last j entries)
    last-unsubscribe j a e many =
        rw
          (handle_unsubscribe a many, last-known j bare (erase bare (known bare entries)) entries e)
          (ground (arith, lookup-erase bare j (known bare entries), last-before j bare entries e))

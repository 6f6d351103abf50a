-- ===== src/Sessions/Rejoin.antt =====
-- After a login the rooms that a User keeps are joined again.
use spectrum.Prelude.{
  ℕ, ◌≡◌, refl, sym, ap, ◌∙◌, true, false, List, [], ◌∷◌, ◌++◌, map, append_assoc, append-nil,
  Option, none, some, Text, nat_eq, text_eq, Eq, if◌then◌else◌, All, subst, arith, beq_self,
  keeps_lem, not, ◌&&◌,
}
use spectrum.Conversations.Manager.{ConversationManager, get_conversation, update_conv}
use spectrum.Sessions.State.{Stanza, Signal, Host, Around, User, with_conversations, room_of, joins}
use spectrum.Sessions.Rooms.{
  make_ready, tell_joined, is_joined, remember, new_room, enter_room, open_room, join_by,
  handle_join,
}
use spectrum.Sessions.Presence.{
  handle_photo, try_connect, handle_addressed, handle_presence, send_current_presence, rejoin,
  set_connected,
}
use spectrum.Sessions.Quiet.{
  room_joins, room_joins-append, handle_photo-Quiet, handle_photo-conversations,
  send_current_presence-Quiet, send_current_presence-conversations,
}
use spectrum.Sessions.Joined.{Joins, Joined, Inv}
use spectrum.Sessions.Open.{is_some, is_open, new_room-open, new_room-keeps}

module _ {J : Type 0} (host : Host J) ⦃same : Eq J⦄ where
  -- One more join was sent; the rooms that were open stay open, and its room is open.
  abbrev Rejoined : Stanza J → User J → User J → Type 0
  Rejoined p u v =
      (v.connected ≡ true)
      × (v.joined_rooms ≡ u.joined_rooms)
      × (room_joins v.signals ≡ room_joins u.signals ++ joins host p ∷ [])
      × (is_open (room_of host p.receiver) v ≡ true)
      × ((name : Text) → is_open name u ≡ true → is_open name v ≡ true)

  room_joins-tell_joined :
      (p : Stanza J) (u : User J)
      → room_joins (tell_joined host p u).signals ≡ room_joins u.signals ++ joins host p ∷ []
  unfolding tell_joined
  room_joins-tell_joined p u =
      room_joins-append (u.signals ++ Signal.raw_presence p ∷ []) (joins host p ∷ [])
      ∙ ap (λ xs. xs ++ joins host p ∷ [])
          (room_joins-append u.signals (Signal.raw_presence p ∷ [])
            ∙ append-nil (room_joins u.signals))

  -- A room that is kept is opened without being kept twice.
  open_room-joined :
      (p : Stanza J) (u : User J)
      → u.connected ≡ true
      → is_joined p.receiver u.joined_rooms ≡ true
      → open_room host p u
        ≡ tell_joined host p (with_conversations (new_room host p u.conversations) u)
  unfolding open_room remember
  open_room-joined p u c j = ground arith

  tell_joined-Rejoined :
      (p : Stanza J) (s : ConversationManager J) (u : User J)
      → u.connected ≡ true
      → is_some (get_conversation (room_of host p.receiver) s) ≡ true
      → ((name : Text) → is_open name u ≡ true → is_some (get_conversation name s) ≡ true)
      → Rejoined p u (tell_joined host p (with_conversations s u))
  tell_joined-Rejoined p s u c o k = (
    unfold tell_joined in c,
    unfold tell_joined in refl,
    room_joins-tell_joined p (with_conversations s u),
    unfold tell_joined in o,
    unfold tell_joined in k,
  )

  update_conv-open :
      (a : ℕ) (name : Text) (p : Stanza J) (u : User J)
      → is_open name u ≡ true
      → is_some (get_conversation name (update_conv a (enter_room host p) u.conversations)) ≡ true
  unfolding get_conversation
  update_conv-open a name p u o = o

  join_by-Rejoined :
      (p : Stanza J) (a : Option ℕ) (u : User J)
      → u.connected ≡ true
      → is_joined p.receiver u.joined_rooms ≡ true
      → get_conversation (room_of host p.receiver) u.conversations ≡ a
      → Rejoined p u (join_by host true p a u)
  unfolding join_by
  join_by-Rejoined p none u c j e = rw (open_room-joined p u c j) (
      tell_joined-Rejoined p (new_room host p u.conversations) u c
        (new_room-open host p u.conversations)
        (λ name o. new_room-keeps host name p u.conversations o))
  join_by-Rejoined p (some a) u c j e =
      tell_joined-Rejoined p (update_conv a (enter_room host p) u.conversations) u c
        (update_conv-open a (room_of host p.receiver) p u (ap is_some e))
        (λ name o. update_conv-open a name p u o)

  -- Nothing that a join depends on has changed.
  abbrev Alike : User J → User J → Type 0
  Alike u v =
      (v.connected ≡ u.connected)
      × (v.joined_rooms ≡ u.joined_rooms)
      × (room_joins v.signals ≡ room_joins u.signals)
      × (v.conversations ≡ u.conversations)

  Alike-Rejoined : (p : Stanza J) (u v w : User J) → Alike u v → Rejoined p v w → Rejoined p u w
  Alike-Rejoined p u v w a r = (
    r.0,
    r.1 ∙ a.1,
    r.2 ∙ ap (λ xs. xs ++ joins host p ∷ []) a.2,
    r.3,
    λ name o. r.4 name (ap (λ s. is_some (get_conversation name s)) a.3 ∙ o),
  )

  make_ready-Alike : (u : User J) → Alike u (if u.ready_for_connect then u else make_ready u)
  unfolding make_ready
  make_ready-Alike u = ground (
    arith,
    room_joins-append u.signals (Signal.ready_to_connect ∷ []),
    append-nil (room_joins u.signals),
  )

  handle_join-Rejoined :
      (p : Stanza J) (u : User J)
      → u.connected ≡ true
      → is_joined p.receiver u.joined_rooms ≡ true
      → Rejoined p u (handle_join host true p u)
  unfolding handle_join
  handle_join-Rejoined p u c j =
      let v = if u.ready_for_connect then u else make_ready u in
      let a = make_ready-Alike u in
      let found = get_conversation (room_of host p.receiver) v.conversations in
      Alike-Rejoined p u v (join_by host true p found v) a
        (join_by-Rejoined p found v (a.0 ∙ c) (ap (is_joined p.receiver) a.1 ∙ j) refl)

  module _ (around : Around J) (invalid : J) where
    try_connect-connected :
        (p : Stanza J) (u : User J) → u.connected ≡ true → try_connect host around p u ≡ u
    unfolding try_connect
    try_connect-connected p u c = simp c

    handle_presence-join :
        (p : Stanza J) (u : User J)
        → Joins host p
        → u.connected ≡ true
        → handle_presence host around invalid true p u
          ≡ handle_join host true p (handle_photo p.photo_hash u)
    unfolding handle_presence handle_addressed
    handle_presence-join p u h c =
        let v = handle_photo p.photo_hash u in
        let q = handle_photo-Quiet p.photo_hash u in
        rw (try_connect-connected p v (q.0 ∙ c), h.0, h.1, h.2) refl

    handle_presence-Rejoined :
        (p : Stanza J) (u : User J)
        → Joins host p
        → u.connected ≡ true
        → is_joined p.receiver u.joined_rooms ≡ true
        → Rejoined p u (handle_presence host around invalid true p u)
    handle_presence-Rejoined p u h c j =
        let v = handle_photo p.photo_hash u in
        let q = handle_photo-Quiet p.photo_hash u in
        let a : Alike u v = (q.0, q.2, q.4, handle_photo-conversations p.photo_hash u) in
        rw (handle_presence-join p u h c) (
          Alike-Rejoined p u v (handle_join host true p v) a
            (handle_join-Rejoined p v (q.0 ∙ c) (ap (is_joined p.receiver) q.2 ∙ j)))

    -- Every presence of a list is one that is kept.
    abbrev AllKept : List (Stanza J) → List (Stanza J) → Type 0
    AllKept ps kept = All (λ p. Joins host p × (is_joined p.receiver kept ≡ true)) ps

    rejoin_lem :
        (ps : List (Stanza J)) (u : User J)
        → u.connected ≡ true
        → AllKept ps u.joined_rooms
        → (let v = rejoin host around invalid ps u in
            (v.joined_rooms ≡ u.joined_rooms)
            × (room_joins v.signals ≡ room_joins u.signals ++ map (joins host) ps)
            × All (λ p. is_open (room_of host p.receiver) v ≡ true) ps
            × ((name : Text) → is_open name u ≡ true → is_open name v ≡ true))
    unfolding rejoin
    rejoin_lem [] u c k = (refl, sym (append-nil (room_joins u.signals)), tt, λ name o. o)
    rejoin_lem (p ∷ ps) u c k =
        let v = handle_presence host around invalid true p u in
        let r = handle_presence-Rejoined p u k.0.0 c k.0.1 in
        let rest = rejoin_lem ps v r.0 (subst (AllKept ps) (sym r.1) k.1) in
        (
          rest.0 ∙ r.1,
          rest.1
              ∙ ap (λ xs. xs ++ map (joins host) ps) r.2
              ∙ append_assoc (room_joins u.signals) (joins host p ∷ []) (map (joins host) ps),
          (rest.3 (room_of host p.receiver) r.3, rest.2),
          λ name o. rest.3 name (r.4 name o),
        )

    -- Each of the rooms that are kept is among them.
    is_joined-kept :
        (p : Stanza J) (ps : List (Stanza J)) (kept : List (Stanza J))
        → AllKept ps kept
        → AllKept ps (p ∷ kept)
    is_joined-kept p [] kept k = tt
    is_joined-kept p (q ∷ ps) kept k =
        ((k.0.0, ground (arith, k.0.1)), is_joined-kept p ps kept k.1)

    Joined-AllKept : (ps : List (Stanza J)) → Joined host ps → AllKept ps ps
    Joined-AllKept [] j = tt
    Joined-AllKept (p ∷ ps) j =
        ((j.0, rw (beq_self p.receiver) refl), is_joined-kept p ps ps (Joined-AllKept ps j.2))

    -- When a User with the invariant is connected to the legacy network, he joins exactly the rooms
    -- that he keeps, each once and in the order in which he joined them; he keeps them all, and each
    -- of them has a conversation then, as every room that was open still has.
    pub set_connected-joins :
        (u : User J)
        → Inv host u
        → (let v = set_connected host around invalid true u in
            (v.joined_rooms ≡ u.joined_rooms)
            × (room_joins v.signals ≡ room_joins u.signals ++ map (joins host) u.joined_rooms)
            × All (λ p. is_open (room_of host p.receiver) v ≡ true) u.joined_rooms
            × ((name : Text) → (is_open name u && not (is_open name v)) ≡ false))
    unfolding set_connected send_current_presence
    set_connected-joins u i =
        let s : User J = record u {
          connected = true;
          reconnect_counter = 0;
          ignore_disconnect = false;
        } in
        let told = send_current_presence host around s in
        let q = send_current_presence-Quiet host around s in
        let a : Alike s told = (q.0, q.2, q.4, send_current_presence-conversations host around s) in
        let r =
          rejoin_lem u.joined_rooms told q.0
            (subst (AllKept u.joined_rooms) (sym q.2) (Joined-AllKept u.joined_rooms i.joined)) in
        rw (q.2) (
          r.0 ∙ q.2,
          r.1 ∙ ap (λ xs. xs ++ map (joins host) u.joined_rooms) q.4,
          r.2,
          λ name.
              keeps_lem (is_open name u) _
                (λ o. r.3 name (ap (λ c. is_some (get_conversation name c)) a.3 ∙ o)),
        )

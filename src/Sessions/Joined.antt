-- ===== src/Sessions/Joined.antt =====
-- The rooms that a User keeps to join them again after a reconnect, and his login, under each operation.
use spectrum.Prelude.{
  ℕ, ◌≡◌, refl, ◌∙◌, Bool, true, false, List, [], ◌∷◌, ◌++◌, Option, none, some, Text, nat_eq,
  text_eq, Eq, ◌==◌, if◌then◌else◌, is_empty, arith,
}
use spectrum.Presences.{is_unavailable}
use spectrum.Conversations.Manager.{ConversationManager, get_conversation, remove_conversation}
use spectrum.Sessions.State.{
  Stanza, Signal, Host, Around, User, emit, with_conversations, is_muc, joins,
}
use spectrum.Sessions.Rooms.{
  drop_joined, close_room, leave_room, make_ready, tell_joined, leave_by, is_joined, remember,
  open_room, join_by, handle_join, handle_leave,
}
use spectrum.Sessions.Presence.{leave_rooms}
use spectrum.Sessions.Quiet.{readies, readies-append, is_quiet, readies-quiet, Quiet, emit-Quiet}

module _ {J : Type 0} (host : Host J) where
  -- A presence that joins a room.
  abbrev pub Joins : Stanza J → Type 0
  Joins p =
      (is_empty (host.node p.receiver) ≡ false)
      × (is_unavailable p.kind ≡ false)
      × (is_muc host p ≡ true)

  module _ ⦃same : Eq J⦄ where
    -- Each of them joins a room, and no two have the same receiver.
    abbrev pub Joined : List (Stanza J) → Type 0
    Joined [] = Unit
    Joined (p ∷ ps) = Joins p × (is_joined p.receiver ps ≡ false) × Joined ps

    is_joined-drop_joined :
        (to : J) (room : Text) (ps : List (Stanza J))
        → is_joined to ps ≡ false
        → is_joined to (drop_joined host room ps) ≡ false
    unfolding drop_joined
    is_joined-drop_joined to room [] h = refl
    is_joined-drop_joined to room (p ∷ ps) h = ground (arith, is_joined-drop_joined to room ps)

    drop_joined-Joined :
        (room : Text) (ps : List (Stanza J)) → Joined ps → Joined (drop_joined host room ps)
    unfolding drop_joined
    drop_joined-Joined room [] h = tt
    drop_joined-Joined room (p ∷ ps) h =
        ground (arith, is_joined-drop_joined p.receiver room ps, drop_joined-Joined room ps h.2)

    is_joined-snoc :
        (to : J) (p : Stanza J) (ps : List (Stanza J))
        → is_joined to ps ≡ false
        → (p.receiver == to) ≡ false
        → is_joined to (ps ++ p ∷ []) ≡ false
    is_joined-snoc to p [] h k = ground arith
    is_joined-snoc to p (q ∷ ps) h k = ground (arith, is_joined-snoc to p ps)

    snoc-Joined :
        (p : Stanza J) (ps : List (Stanza J))
        → Joins p
        → is_joined p.receiver ps ≡ false
        → Joined ps
        → Joined (ps ++ p ∷ [])
    snoc-Joined p [] j h k = (j, refl, tt)
    snoc-Joined p (q ∷ ps) j h k = ground (
      arith,
      is_joined-snoc q.receiver p ps,
      snoc-Joined p ps j,
      same.same_iff p.receiver q.receiver,
      same.same_iff q.receiver p.receiver,
    )

    -- What holds of every User between calls: the rooms that he keeps, and one signal for one login.
    pub record Inv (u : User J) : Type 0 where
      pub joined : Joined u.joined_rooms
      pub login : readies u.signals ≡ (if u.ready_for_connect then 1 else 0)

    pub Quiet-Inv : (u v : User J) → Quiet u v → Inv u → Inv v
    Quiet-Inv u v q i = record { joined = rw (q.2) i.joined; login = q.3 ∙ rw (q.1) i.login }

    pub if-Inv : (b : Bool) (u v : User J) → Inv u → Inv v → Inv (if b then u else v)
    if-Inv true u v i k = i
    if-Inv false u v i k = k

    pub if-Inv_of :
        (b : Bool) (u v : User J)
        → (b ≡ true → Inv u)
        → (b ≡ false → Inv v)
        → Inv (if b then u else v)
    if-Inv_of true u v f g = f refl
    if-Inv_of false u v f g = g refl

    pub with_conversations-Inv :
        (s : ConversationManager J) (u : User J) → Inv u → Inv (with_conversations s u)
    with_conversations-Inv s u i = record { joined = i.joined; login = i.login }

    close_room-Inv : (a : Option ℕ) (u : User J) → Inv u → Inv (close_room host a u)
    unfolding close_room
    close_room-Inv none u i = i
    close_room-Inv (some a) u i = with_conversations-Inv (remove_conversation a u.conversations) u i

    pub leave_room-Inv : (room : Text) (u : User J) → Inv u → Inv (leave_room host room u)
    unfolding leave_room
    leave_room-Inv room u i = close_room-Inv (get_conversation room u.conversations) _ (record {
      joined = drop_joined-Joined room u.joined_rooms i.joined;
      login = readies-quiet u.signals (Signal.room_left room) refl ∙ i.login;
    })

    pub leave_rooms-Inv :
        (around : Around J) (rooms : List Text) (u : User J)
        → Inv u
        → Inv (leave_rooms host around rooms u)
    unfolding leave_rooms
    leave_rooms-Inv around [] u i = i
    leave_rooms-Inv around (room ∷ rooms) u i =
        leave_rooms-Inv around rooms (leave_room host room u) (leave_room-Inv room u i)

    pub make_ready-Inv : (u : User J) → u.ready_for_connect ≡ false → Inv u → Inv (make_ready u)
    unfolding make_ready
    make_ready-Inv u h i = record {
      joined = i.joined;
      login = ground (arith, i.login, readies-append u.signals (Signal.ready_to_connect ∷ []));
    }

    pub emit-Inv : (x : Signal J) (u : User J) → is_quiet x ≡ true → Inv u → Inv (emit x u)
    emit-Inv x u h i = Quiet-Inv u (emit x u) (emit-Quiet x u h) i

    tell_joined-Inv : (p : Stanza J) (u : User J) → Inv u → Inv (tell_joined host p u)
    unfolding tell_joined
    tell_joined-Inv p u i = record {
      joined = i.joined;
      login =
          readies-append (u.signals ++ Signal.raw_presence p ∷ []) (joins host p ∷ [])
          ∙ omega (arith, i.login, readies-append u.signals (Signal.raw_presence p ∷ []));
    }

    remember-Inv : (p : Stanza J) (u : User J) → Joins p → Inv u → Inv (remember p u)
    unfolding remember
    remember-Inv p u j i = record {
      joined = ground (arith, i.joined, snoc-Joined p u.joined_rooms j);
      login = i.login;
    }

    open_room-Inv : (p : Stanza J) (u : User J) → Joins p → Inv u → Inv (open_room host p u)
    unfolding open_room
    open_room-Inv p u j i =
        let listed = remember p u in
        let kept = remember-Inv p u j i in
        if-Inv listed.connected _ listed
          (tell_joined-Inv p _ (with_conversations-Inv _ listed kept)) kept

    join_by-Inv :
        (force : Bool) (p : Stanza J) (a : Option ℕ) (u : User J)
        → Joins p
        → Inv u
        → Inv (join_by host force p a u)
    unfolding join_by
    join_by-Inv force p none u j i = open_room-Inv p u j i
    join_by-Inv force p (some a) u j i =
        if-Inv force _ _ (tell_joined-Inv p _ (with_conversations-Inv _ u i))
          (with_conversations-Inv _ u i)

    pub handle_join-Inv :
        (force : Bool) (p : Stanza J) (u : User J)
        → Joins p
        → Inv u
        → Inv (handle_join host force p u)
    unfolding handle_join
    handle_join-Inv force p u j i =
        join_by-Inv force p _ _ j
          (if-Inv_of u.ready_for_connect u (make_ready u) (λ h. i) (λ h. make_ready-Inv u h i))

    leave_by-Inv : (p : Stanza J) (a : Option ℕ) (u : User J) → Inv u → Inv (leave_by host p a u)
    unfolding leave_by
    leave_by-Inv p none u i = i
    leave_by-Inv p (some a) u i = if-Inv _ _ _ (with_conversations-Inv _ u i) (
        leave_room-Inv _ _ (emit-Inv (Signal.raw_presence p) _ refl (with_conversations-Inv _ u i)))

    pub handle_leave-Inv : (p : Stanza J) (u : User J) → Inv u → Inv (handle_leave host p u)
    unfolding handle_leave
    handle_leave-Inv p u i = leave_by-Inv p _ u i

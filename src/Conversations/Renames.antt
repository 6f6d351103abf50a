-- ===== src/Conversations/Renames.antt =====
-- Who is in a room after a participant changed (libtransport/Conversation.cpp).
use spectrum.Prelude.{
  ◌≡◌, refl, ap, Bool, true, false, not, ◌&&◌, ◌||◌, List, [], ◌∷◌, Option, none, some, Text,
  nat_eq, text_eq, ◌==◌, if◌then◌else◌, is_empty, arith,
}
use spectrum.Prelude.Maps.{lookup, lookup-insert, lookup-erase}
use spectrum.Presences.{is_unavailable}
use spectrum.Conversations.State.{
  RoomPresence, Participant, Message, Sent, Conversation, Transport, emit,
}
use spectrum.Conversations.Participants.{
  Change, failure_of, plain_presence, with_item, own_presence, generate_presence, emit_message,
  send_to_all, update_participant, send_initial_subject, change_participant,
  handle_participant_changed,
}

module _ {J : Type 0} where
  abbrev pub is_found : Option (Participant J) → Bool
  is_found none = false
  is_found (some p) = true

  -- Whether a nickname is in the room.
  abbrev pub is_present : Text → Conversation J → Bool
  is_present nick c = is_found (lookup nick c.participants)

  module _ (transport : Transport J) where
    -- The presence of a change without an error tells whether the participant is gone.
    generate_presence-kind :
        (x : Change) (c : Conversation J)
        → failure_of x.flag x.text ≡ none
        → is_unavailable (generate_presence transport x c).0.kind
          ≡ (not (is_empty x.new_name) || x.status == 5)
    unfolding generate_presence own_presence with_item plain_presence
    generate_presence-kind x c h = rw h ground arith

    generate_presence-participants :
        (x : Change) (c : Conversation J)
        → (generate_presence transport x c).1.participants ≡ c.participants
    unfolding generate_presence own_presence
    generate_presence-participants x c = ground arith

    send_to_all-participants :
        (js : List J) (p : RoomPresence J) (c : Conversation J)
        → (send_to_all transport js p c).participants ≡ c.participants
    unfolding send_to_all
    send_to_all-participants [] p c = refl
    send_to_all-participants (j ∷ js) p c =
        send_to_all-participants js p (emit (Sent.presence j p) c)

    emit_message-participants :
        (m : Option (Message J)) (c : Conversation J)
        → (emit_message transport m c).participants ≡ c.participants
    emit_message-participants none c = refl
    emit_message-participants (some m) c = refl

    send_initial_subject-participants :
        (c : Conversation J) → (send_initial_subject transport c).participants ≡ c.participants
    unfolding send_initial_subject
    send_initial_subject-participants c =
        ground
          (arith, emit_message-participants c.subject (record c { sent_initial_subject = true }))

    -- One presence changes whether its own nickname is in the room.
    is_present-update_participant :
        (other nick alias : Text) (p : RoomPresence J) (c : Conversation J)
        → is_present other (update_participant transport nick alias p c)
          ≡ (if nick == other then not (is_unavailable p.kind) else is_present other c)
    unfolding update_participant
    is_present-update_participant other nick alias p c = ground (
      arith,
      lookup-insert nick other (record { presence = p; alias = alias }) c.participants,
      lookup-erase nick other c.participants,
    )

    told-is_present :
        (other alias : Text) (x y : Change) (c : Conversation J)
        → failure_of y.flag y.text ≡ none
        → is_present other (
            send_to_all transport c.jids (generate_presence transport y c).0 (
              update_participant transport x.nick alias
                (generate_presence transport y c).0
                (generate_presence transport y c).1))
          ≡ (if x.nick == other
              then is_empty y.new_name && not (y.status == 5)
              else is_present other c)
    told-is_present other alias x y c h =
        let r = generate_presence transport y c in
        ground (
          arith,
          ap (λ m. is_found (lookup other m))
              (send_to_all-participants c.jids r.0
                (update_participant transport x.nick alias r.0 r.1)),
          is_present-update_participant other x.nick alias r.0 r.1,
          ap (λ m. is_found (lookup other m)) (generate_presence-participants y c),
          generate_presence-kind y c h,
        )

    change_participant-is_present :
        (renamed : Conversation J → Conversation J) (other alias : Text) (x : Change)
        (gone : Bool → Bool) (c : Conversation J)
        → failure_of x.flag x.text ≡ none
        → ((d : Conversation J) → is_present other (renamed d) ≡ gone (is_present other d))
        → is_present other (change_participant transport renamed alias x c) ≡ (
            let here =
              if x.nick == other
              then is_empty x.new_name && not (x.status == 5)
              else is_present other c in
            if is_empty x.new_name then here else gone here)
    unfolding change_participant
    change_participant-is_present renamed other alias x gone c h later =
        let y = record x { nick = if is_empty alias then x.nick else alias } in
        let r = generate_presence transport y c in
        let told =
          send_to_all transport c.jids r.0 (update_participant transport x.nick alias r.0 r.1) in
        let next = if is_empty x.new_name then told else renamed told in
        ground (
          arith,
          told-is_present other alias x y c h,
          later told,
          ap (λ m. is_found (lookup other m)) (send_initial_subject-participants next),
        )

    -- After a participant changed without an error: he is in the room under the new name exactly when
    -- he is not offline, where there is a new name; under the old name, when it is not the new one,
    -- exactly when he has no new name and is not offline; and anybody else is in the room exactly when
    -- he was before.
    pub is_present-handle_participant_changed :
        (other alias : Text) (x : Change) (c : Conversation J)
        → failure_of x.flag x.text ≡ none
        → is_present other (handle_participant_changed transport alias x c) ≡ (
            if not (is_empty x.new_name) && x.new_name == other
            then not (x.status == 5)
            else if x.nick == other
            then is_empty x.new_name && not (x.status == 5)
            else is_present other c)
    unfolding handle_participant_changed
    is_present-handle_participant_changed other alias x c h =
        let y = record x { nick = x.new_name; new_name = [] } in
        let gone : Bool → Bool = λ b. if x.new_name == other then not (x.status == 5) else b in
        ground (
          arith,
          change_participant-is_present (change_participant transport (λ d. d) [] y) other alias x
              gone c h
              (λ d. change_participant-is_present (λ d. d) other [] y (λ b. b) d h (λ d. refl)),
        )

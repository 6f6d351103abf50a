-- ===== src/Payloads/Delivery.antt =====
-- Which conversation a message from the legacy network goes to, and which handlers open none.
use spectrum.Prelude.{
  ℕ, ◌≡◌, refl, sym, ap, ◌∙◌, Bool, true, false, not, ◌&&◌, ◌||◌, ◌∷◌, ◌++◌, Option, none, some,
  Text, nat_eq, text_eq, Eq, if◌then◌else◌, is_empty, length, arith, if_cases, keeps_lem,
}
use spectrum.Prelude.Maps.{lookup, insert, lookup-insert_self}
use spectrum.Conversations.State.{Conversation, Transport, new_conversation, set_room, set_nickname}
use spectrum.Conversations.Messages.{Surroundings}
use spectrum.Conversations.Manager.{
  ConversationManager, get_conversation, add_conversation, create_conversation,
}
use spectrum.Users.State as Users
use spectrum.Sessions.State as Sessions
use spectrum.Sessions.Open.{is_some, get_within-found, get_within-insert}
use spectrum.Payloads.Handlers.{ConversationMessage, open_private, open_for, deliver}

module _ {J : Type 0} where
  -- Whether a name has a conversation.
  abbrev pub has : Text → ConversationManager J → Bool
  has name c = is_some (get_conversation name c)

  -- The conversation that a message is for: in a room that is open a private one has the member's.
  abbrev pub target : ConversationMessage → ConversationManager J → Text
  target p c = if has p.buddyname c && p.pm then p.buddyname ++ 47 ∷ p.nickname else p.buddyname

  has-insert :
      (name key : Text) (a : ℕ) (c d : ConversationManager J)
      → d.convs ≡ insert key a c.convs
      → has name c ≡ true
      → has name d ≡ true
  unfolding get_conversation
  has-insert name key a c d e h = rw e (get_within-insert (length name) a key name c.convs h)

  has-insert_self :
      (key : Text) (a : ℕ) (c d : ConversationManager J)
      → d.convs ≡ insert key a c.convs
      → has key d ≡ true
  unfolding get_conversation
  has-insert_self key a c d e =
      get_within-found (length key) a key d.convs
        (ap (lookup key) e ∙ lookup-insert_self key a c.convs)

  module _ (transport : Transport J) where
    create_conversation-convs :
        (name : Text) (f : Conversation J → Conversation J) (c : ConversationManager J)
        → (create_conversation transport name f c).convs
          ≡ insert (f (new_conversation transport c.user_jid name false)).legacy_name c.next c.convs
    unfolding create_conversation add_conversation
    create_conversation-convs name f c = ground arith

    -- A new conversation under `key` keeps the others.
    abbrev Opens : Text → ConversationManager J → ConversationManager J → Type 0
    Opens key c d = (has key d ≡ true) × ((name : Text) → has name c ≡ true → has name d ≡ true)

    create-Opens :
        (key name : Text) (f : Conversation J → Conversation J) (c : ConversationManager J)
        → (f (new_conversation transport c.user_jid name false)).legacy_name ≡ key
        → Opens key c (create_conversation transport name f c)
    create-Opens key name f c e =
        let d = create_conversation transport name f c in
        let same : d.convs ≡ insert key c.next c.convs =
          create_conversation-convs name f c ∙ ap (λ k. insert k c.next c.convs) e in
        (has-insert_self key c.next c d same, λ other h. has-insert other key c.next c d same h)

  module _ {D : Type 0} (host : Users.Host J D) (swift : Sessions.Host J) ⦃same : Eq J⦄ where
    open_private-Opens :
        (room nick : Text) (found : Option ℕ) (c : ConversationManager J)
        → get_conversation (room ++ 47 ∷ nick) c ≡ found
        → Opens swift.transport (room ++ 47 ∷ nick) c (open_private host swift room nick found c).1
    unfolding open_private new_conversation set_room set_nickname
    open_private-Opens room nick none c e =
        create-Opens swift.transport (room ++ 47 ∷ nick) nick _ c refl
    open_private-Opens room nick (some a) c e = (ap is_some e, λ name h. h)

    open_for-Opens :
        (buddy nick : Text) (pm : Bool) (found : Option ℕ) (c : ConversationManager J)
        → get_conversation buddy c ≡ found
        → Opens swift.transport
            (if is_some found && pm then buddy ++ 47 ∷ nick else buddy)
            c
            (open_for host swift buddy nick pm found c).1
    unfolding open_for new_conversation
    open_for-Opens buddy nick pm none c e = create-Opens swift.transport buddy buddy _ c refl
    open_for-Opens buddy nick false (some a) c e = (ap is_some e, λ name h. h)
    open_for-Opens buddy nick true (some a) c e = open_private-Opens buddy nick _ c refl

    -- What a message leaves: whether a name has a conversation, and that none was closed.
    abbrev Left : Text → Bool → ConversationManager J → ConversationManager J → Type 0
    Left key is_open c d =
        (has key d ≡ is_open) × ((name : Text) → (has name c && not (has name d)) ≡ false)

    refused :
        (found pm is_blank : Bool)
        → (not found && not is_blank) ≡ true
        → (found ≡ false) × (is_blank ≡ false)
    refused false pm false h = (refl, refl)
    refused false pm true h = ground arith
    refused true pm b h = ground arith

    closed_lem : (found pm : Bool) (x y : Text) → found ≡ false → (if found && pm then x else y) ≡ y
    closed_lem true pm x y h = ground arith
    closed_lem false pm x y h = refl

    accepted :
        (found is_blank : Bool) → (not found && not is_blank) ≡ false → true ≡ (found || is_blank)
    accepted false false h = h
    accepted false true h = refl
    accepted true is_blank h = refl

    refused-Left :
        (p : ConversationMessage) (c : ConversationManager J)
        → (not (has p.buddyname c) && not (is_empty p.nickname)) ≡ true
        → Left (target p c) (has p.buddyname c || is_empty p.nickname) c c
    refused-Left p c h =
        let closed = refused (has p.buddyname c) p.pm (is_empty p.nickname) h in
        (
          ap (λ key. has key c) (closed_lem (has p.buddyname c) p.pm _ p.buddyname closed.0)
              ∙ closed.0
              ∙ sym (ap (λ b. b || is_empty p.nickname) closed.0 ∙ closed.1),
          λ name. keeps_lem (has name c) (has name c) (λ h. h),
        )

    pub deliver_lem :
        (near : Surroundings J) (nobody : J) (subject : Bool) (p : ConversationMessage)
        (c : ConversationManager J)
        → (let d = deliver host swift near nobody subject p c in
            (has (target p c) d ≡ (has p.buddyname c || is_empty p.nickname))
            × ((name : Text) → (has name c && not (has name d)) ≡ false))
    unfolding deliver get_conversation
    deliver_lem near nobody subject p c =
        if_cases (Left (target p c) (has p.buddyname c || is_empty p.nickname) c)
          (not (has p.buddyname c) && not (is_empty p.nickname)) c _ (refused-Left p c)
          (λ h.
            let o = open_for-Opens p.buddyname p.nickname p.pm _ c refl in
            (o.0 ∙ accepted _ _ h, λ name. keeps_lem (has name c) _ (o.1 name)))

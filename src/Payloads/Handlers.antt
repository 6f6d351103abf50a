-- ===== src/Payloads/Handlers.antt =====
-- The handlers of messages about users, conversations and rooms. service.enable_xhtml is taken to be
-- off, so that wrapIncomingMedia gives the message back as it is.
use spectrum.Prelude.{
  ℕ, Bool, true, false, not, ◌&&◌, List, [], ◌∷◌, ◌++◌, Option, none, some, Text, nat_eq, text_eq,
  Eq, if◌then◌else◌, is_empty, length, drop,
}
use spectrum.Names.{replace_last}
use spectrum.Registry.{on_password_valid, on_password_invalid}
use spectrum.Users.State as Users
use spectrum.Users.State.{Manager, update, set_registry}
use spectrum.Conversations.State.{
  MessageType, chat, headline, Message, Sent, Conversation, set_room, set_nickname,
}
use spectrum.Conversations.Messages.{Surroundings, handle_message}
use spectrum.Conversations.Participants.{Change, handle_participant_changed}
use spectrum.Conversations.Manager.{
  ConversationManager, update_conv, get_conversation, create_conversation,
}
use spectrum.Sessions.State as Sessions
use spectrum.Sessions.State.{Around, User}
use spectrum.Sessions.Presence.{set_connected, leave_rooms}
use spectrum.Payloads.State.{
  Told, Desk, tell, update_session, conversations_of, set_conversations, with_user,
}

-- pbnetwork::ConversationMessage; `is_old` tells whether it has a timestamp.
pub record ConversationMessage : Type 0 where
  pub username : Text
  pub buddyname : Text
  pub nickname : Text
  pub body : Text
  pub is_headline : Bool
  pub is_old : Bool
  pub pm : Bool
  pub carbon : Bool
  pub id : Text

module _ {J D : Type 0} (host : Users.Host J D) (swift : Sessions.Host J) ⦃same : Eq J⦄ where
  unfoldable pub handle_connected_payload : Around J → J → Text → Desk J D → Desk J D
  handle_connected_payload around invalid name = with_user host name (λ u s.
      let m = record s.manager { is_connected = update u true s.manager.is_connected } in
      update_session u (set_connected swift around invalid true (s.session u)) (record s {
        manager =
            set_registry (on_password_valid host.swift.bare (host.swift.parse name) m.registry) m;
      }))

  unfoldable pub handle_disconnected_payload : Text → Text → ℕ → Desk J D → Desk J D
  handle_disconnected_payload name text error s =
      let m =
        set_registry
          (on_password_invalid host.swift.bare (host.swift.parse name) s.manager.registry)
          s.manager in
      with_user host name (λ u t. tell (Told.disconnected u text error) t)
        (record s { manager = m })

  unfoldable pub handle_authorization_payload : Text → Text → Desk J D → Desk J D
  handle_authorization_payload name buddy = with_user host name (λ u s.
      tell
        (Told.subscribe u (
          swift.transport.at
            (if swift.transport.jid_escaping
              then swift.transport.escape buddy
              else replace_last 64 37 buddy)
            []))
        s)

  -- A message with no addresses yet.
  abbrev blank_message : J → MessageType → Bool → Text → Text → Message J
  blank_message nobody kind is_old body subject = record {
    kind = kind;
    sender = nobody;
    receiver = nobody;
    is_delayed = is_old;
    wrapped = [];
    body = body;
    subject = subject;
  }

  -- Into a conversation that exists; else the message is dropped.
  unfoldable pub into_found :
      (Conversation J → Conversation J) → Option ℕ → ConversationManager J → ConversationManager J
  into_found f none c = c
  into_found f (some a) c = update_conv a f c

  unfoldable pub into_existing :
      Text → Text → (Conversation J → Conversation J) → Desk J D → Desk J D
  into_existing name buddy f = with_user host name (λ u s.
      let c = conversations_of u s in
      set_conversations u (into_found f (get_conversation buddy c) c) s)

  unfoldable pub handle_chat_state_payload : Surroundings J → J → Text → Text → Desk J D → Desk J D
  handle_chat_state_payload near nobody name buddy =
      into_existing name buddy
        (handle_message swift.transport near false [] (blank_message nobody chat false [] []))

  unfoldable pub handle_conv_message_ack_payload :
      Surroundings J → J → ConversationMessage → Desk J D → Desk J D
  handle_conv_message_ack_payload near nobody p s =
      if is_empty p.id
      then with_user host p.username (λ u t. t) s
      else into_existing p.username p.buddyname
          (handle_message swift.transport near false [] (blank_message nobody chat false [] [])) s

  unfoldable pub handle_room_changed_payload : Text → Text → Text → Desk J D → Desk J D
  handle_room_changed_payload name room nickname = into_existing name room (set_nickname nickname)

  -- The rooms that a conversation made its user leave.
  unfoldable pub rooms_left : List (Sent J) → List Text
  rooms_left [] = []
  rooms_left (Sent.leave_room room ∷ xs) = room ∷ rooms_left xs
  rooms_left (_ ∷ xs) = rooms_left xs

  unfoldable pub change_in_room : Around J → Text → Change → Option ℕ → User J → User J
  change_in_room around alias x none u = u
  change_in_room around alias x (some a) u =
      let old = u.conversations.conv a in
      let changed = handle_participant_changed swift.transport alias x old in
      leave_rooms swift around (rooms_left (drop (length old.sent) changed.sent))
        (record u { conversations = update_conv a (λ c. changed) u.conversations })

  unfoldable pub handle_participant_changed_payload :
      Around J → Text → Text → Text → Change → Desk J D → Desk J D
  handle_participant_changed_payload around name room alias x = with_user host name (λ u s.
      update_session u
        (change_in_room around alias x (get_conversation room (conversations_of u s)) (s.session u))
        s)

  -- The conversation of a private message in a room that is open.
  unfoldable pub open_private :
      Text → Text → Option ℕ → ConversationManager J → ℕ × ConversationManager J
  open_private room nick (some a) c = (a, c)
  open_private room nick none c = (
    c.next,
    create_conversation swift.transport nick
        (λ x. set_nickname (room ++ 47 ∷ nick) (set_room room x)) c,
  )

  unfoldable pub open_for :
      Text → Text → Bool → Option ℕ → ConversationManager J → ℕ × ConversationManager J
  open_for buddy nick pm none c = (c.next, create_conversation swift.transport buddy (λ x. x) c)
  open_for buddy nick pm (some a) c =
      if pm then open_private buddy nick (get_conversation (buddy ++ 47 ∷ nick) c) c else (a, c)

  abbrev is_found : Option ℕ → Bool
  is_found none = false
  is_found (some a) = true

  -- `subject` tells whether the text is a room's subject.
  unfoldable pub deliver :
      Surroundings J
      → J
      → Bool
      → ConversationMessage
      → ConversationManager J
      → ConversationManager J
  deliver near nobody subject p c =
      let found = get_conversation p.buddyname c in
      if not (is_found found) && not (is_empty p.nickname)
      then c
      else let opened = open_for p.buddyname p.nickname p.pm found c in
        update_conv opened.0
          (handle_message swift.transport near p.carbon p.nickname (
            blank_message nobody (if p.is_headline then headline else chat) p.is_old
              (if subject then [] else p.body) (if subject then p.body else [])))
          opened.1

  unfoldable pub handle_conv_message_payload :
      Surroundings J → J → Bool → ConversationMessage → Desk J D → Desk J D
  handle_conv_message_payload near nobody subject p =
      with_user host p.username
        (λ u s. set_conversations u (deliver near nobody subject p (conversations_of u s)) s)

  -- A call for attention opens a conversation.
  unfoldable pub call_attention :
      Surroundings J → J → Text → Text → ConversationManager J → ConversationManager J
  call_attention near nobody buddy body c =
      let opened = open_for buddy [] false (get_conversation buddy c) c in
      update_conv opened.0
        (handle_message swift.transport near false [] (blank_message nobody chat false body []))
        opened.1

  unfoldable pub handle_attention_payload :
      Surroundings J → J → ConversationMessage → Desk J D → Desk J D
  handle_attention_payload near nobody p = with_user host p.username (λ u s.
      set_conversations u (call_attention near nobody p.buddyname p.body (conversations_of u s)) s)

-- ===== src/Sessions/Rooms.antt =====
-- The rooms of a User (libtransport/User.cpp): leaveRoom, and what handlePresence does with a presence
-- for a room.
use spectrum.Prelude.{
  ℕ, Bool, true, false, not, ◌||◌, List, [], ◌∷◌, ◌++◌, Option, none, some, Text, nat_eq, text_eq,
  Eq, ◌==◌, if◌then◌else◌, is_empty, ◌+◌,
}
use spectrum.Prelude.Members.{contains}
use spectrum.Conversations.State.{Conversation, new_conversation, set_nickname}
use spectrum.Conversations.Messages.{send_cached_messages}
use spectrum.Conversations.Participants.{send_participants, remove_jid}
use spectrum.Conversations.Manager.{
  ConversationManager, update_conv, get_conversation, add_conversation, remove_conversation,
}
use spectrum.Sessions.State.{
  Stanza, Signal, Host, User, find, escaped_at, emit, with_conversations, room_of, joins,
}

-- readyForConnect and its signal.
unfoldable pub make_ready : {J : Type 0} → User J → User J
make_ready u = emit Signal.ready_to_connect (record u { ready_for_connect = true })

module _ {J : Type 0} ⦃same : Eq J⦄ where
  abbrev pub is_joined : J → List (Stanza J) → Bool
  is_joined to [] = false
  is_joined to (p ∷ ps) = if p.receiver == to then true else is_joined to ps

  unfoldable pub remember : Stanza J → User J → User J
  remember p u = record u {
    joined_rooms =
        if is_joined p.receiver u.joined_rooms then u.joined_rooms else u.joined_rooms ++ p ∷ [];
  }

module _ {J : Type 0} (host : Host J) where
  -- The first presence that joined the room.
  unfoldable pub drop_joined : Text → List (Stanza J) → List (Stanza J)
  drop_joined room [] = []
  drop_joined room (p ∷ ps) =
      let rest = drop_joined room ps in if room_of host p.receiver == room then ps else p ∷ rest

  unfoldable pub close_room : Option ℕ → User J → User J
  close_room none u = u
  close_room (some a) u = with_conversations (remove_conversation a u.conversations) u

  unfoldable pub leave_room : Text → User J → User J
  leave_room room u =
      let left = record (emit (Signal.room_left room) u) {
        joined_rooms = drop_joined room u.joined_rooms;
      } in
      close_room (get_conversation room left.conversations) left

  unfoldable pub tell_joined : Stanza J → User J → User J
  tell_joined p u = emit (joins host p) (emit (Signal.raw_presence p) u)

  module _ ⦃same : Eq J⦄ where
    -- `a` is the conversation of the room that the presence leaves.
    unfoldable pub leave_by : Stanza J → Option ℕ → User J → User J
    leave_by p none u = u
    leave_by p (some a) u =
        let s = update_conv a (remove_jid host.transport p.sender) u.conversations in
        let left = with_conversations s u in
        if not (is_empty (s.conv a).jids) || u.stay_connected
        then left
        else leave_room (room_of host p.receiver) (emit (Signal.raw_presence p) left)

    -- Another client in a room that is open.
    unfoldable pub enter_room : Stanza J → Conversation J → Conversation J
    enter_room p c =
        if contains p.sender c.jids
        then c
        else send_cached_messages host.transport p.sender (
            send_participants host.transport p.sender (host.transport.resource p.receiver)
              (record c { jids = c.jids ++ p.sender ∷ [] }))

    unfoldable pub new_room : Stanza J → ConversationManager J → ConversationManager J
    new_room p s =
        let name = room_of host p.receiver in
        let c =
          set_nickname (host.transport.resource p.receiver)
            (new_conversation host.transport s.user_jid name true) in
        let opened : Conversation J = record c {
          jids = c.jids ++ p.sender ∷ [];
          muc_escaping = find escaped_at (host.full p.receiver);
        } in
        add_conversation s.next
          (record s { next = s.next + 1; conv = λ b. if s.next == b then opened else s.conv b })

    unfoldable pub open_room : Stanza J → User J → User J
    open_room p u =
        let listed = remember p u in
        if listed.connected
        then tell_joined p (with_conversations (new_room p listed.conversations) listed)
        else listed

    -- `a` is the conversation of the room, where it is open.
    unfoldable pub join_by : Bool → Stanza J → Option ℕ → User J → User J
    join_by force p none u = open_room p u
    join_by force p (some a) u =
        let entered = with_conversations (update_conv a (enter_room p) u.conversations) u in
        if force then tell_joined p entered else entered

    unfoldable pub handle_join : Bool → Stanza J → User J → User J
    handle_join force p u =
        let ready = if u.ready_for_connect then u else make_ready u in
        join_by force p (get_conversation (room_of host p.receiver) ready.conversations) ready

    unfoldable pub handle_leave : Stanza J → User J → User J
    handle_leave p u = leave_by p (get_conversation (room_of host p.receiver) u.conversations) u

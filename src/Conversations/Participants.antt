-- ===== src/Conversations/Participants.antt =====
-- The presences of a room (libtransport/Conversation.cpp): generatePresence, sendParticipants,
-- handleParticipantChanged, handleRawPresence, removeJID and destroyRoom.
use spectrum.Prelude.{
  ℕ, ◌/◌, ◌%◌, Bool, true, false, not, ◌&&◌, List, [], ◌∷◌, ◌++◌, Option, none, some, Text, nat_eq,
  text_eq, Eq, ◌==◌, if◌then◌else◌, is_empty,
}
use spectrum.Prelude.Maps.{Map, lookup, insert, erase}
use spectrum.Prelude.Members.{remove}
use spectrum.Presences.{PresenceType, available, unavailable, error, is_unavailable}
use spectrum.Conversations.State.{
  RoomError, RoomPresence, Participant, Message, Sent, Conversation, Transport, emit, room_node,
}

-- `flag & bit`, where the bit is a power of two.
abbrev pub has_flag : ℕ → ℕ → Bool
has_flag bit flag = (flag / bit) % 2 == 1

abbrev pub is_error : PresenceType → Bool
is_error error = true
is_error _ = false

-- The error of the user's own presence: the nickname is taken, the password is wrong, or there is no
-- such room.
unfoldable pub failure_of : ℕ → Text → Option RoomError
failure_of flag text =
    if has_flag 2 flag
    then some RoomError.conflict
    else if has_flag 8 flag
    then some (RoomError.not_authorized text)
    else if has_flag 64 flag
    then some (RoomError.item_not_found text)
    else none

-- The arguments of a change: nickname, flags, status, its text, the new name and the icon's hash.
pub record Change : Type 0 where
  pub nick : Text
  pub flag : ℕ
  pub status : ℕ
  pub text : Text
  pub new_name : Text
  pub icon_hash : Text

module _ {J : Type 0} (transport : Transport J) where
  unfoldable pub presence_node : Conversation J → Text
  presence_node c = if c.muc then room_node transport c.legacy_name c else c.legacy_name

  unfoldable pub plain_presence : Change → Conversation J → RoomPresence J
  plain_presence x c = record {
    sender = transport.at (presence_node c) x.nick;
    kind = if x.status == 5 then unavailable else available;
    show = x.status;
    status = x.text;
    failure = none;
    codes = [];
    is_moderator = false;
    item_nick = [];
    icon = [];
  }

  -- The item of the MUC payload, with the status codes of the user's own presence.
  unfoldable pub with_item : List ℕ → Change → RoomPresence J → RoomPresence J
  with_item codes x p = record p {
    kind = if is_empty x.new_name then p.kind else unavailable;
    codes = codes ++ (if is_empty x.new_name then [] else 303 ∷ []);
    is_moderator = has_flag 1 x.flag;
    item_nick = x.new_name;
    icon = x.icon_hash;
  }

  unfoldable pub own_presence :
      Option RoomError → Change → Conversation J → RoomPresence J × Conversation J
  own_presence (some failure) x c =
      (record (plain_presence x c) { kind = error; failure = some failure }, c)
  own_presence none x c = (
    with_item (110 ∷ (if c.nickname_changed then 210 ∷ [] else [])) x (plain_presence x c),
    record c { nickname_changed = false; sent_initial_presence = true },
  )

  unfoldable pub generate_presence : Change → Conversation J → RoomPresence J × Conversation J
  generate_presence x c =
      if c.nickname == x.nick
      then own_presence (failure_of x.flag x.text) x c
      else (with_item [] x (plain_presence x c), c)

  abbrev pub online : Text → Text → Change
  online nick new_name = record {
    nick = nick;
    flag = 0;
    status = 0;
    text = [];
    new_name = new_name;
    icon_hash = [];
  }

  -- A presence that is made for one JID, and sent to it.
  unfoldable pub present : J → Change → Conversation J → Conversation J
  present to x c = let r = generate_presence x c in emit (Sent.presence to r.0) r.1

  -- The user joins under another nickname than his first client, and is renamed.
  unfoldable pub rename_to : J → Text → Conversation J → Conversation J
  rename_to to nickname c =
      let joined = present to (online nickname []) (record c { nickname = nickname }) in
      present to (online nickname c.nickname) (record joined { nickname_changed = true })

  unfoldable pub send_each : J → Map Text (Participant J) → Conversation J → Conversation J
  send_each to [] c = c
  send_each to ((_, p) ∷ ps) c = send_each to ps (emit (Sent.presence to p.presence) c)

  unfoldable pub send_participants : J → Text → Conversation J → Conversation J
  send_participants to nickname c =
      let renamed =
        if not (c.nickname == nickname) && not (is_empty nickname)
        then rename_to to nickname c
        else c in
      let greeted = present to (online renamed.nickname []) renamed in
      send_each to greeted.participants greeted

  unfoldable pub send_to_all : List J → RoomPresence J → Conversation J → Conversation J
  send_to_all [] p c = c
  send_to_all (j ∷ js) p c = send_to_all js p (emit (Sent.presence j p) c)

  -- Who is in the room after a presence.
  unfoldable pub update_participant : Text → Text → RoomPresence J → Conversation J → Conversation J
  update_participant nick alias p c = record c {
    participants =
        if is_unavailable p.kind
        then erase nick c.participants
        else insert nick (record { presence = p; alias = alias }) c.participants;
  }

  abbrev pub emit_message : Option (Message J) → Conversation J → Conversation J
  emit_message none c = c
  emit_message (some m) c = emit (Sent.message m) c

  abbrev pub is_some : Option (Message J) → Bool
  is_some none = false
  is_some (some m) = true

  -- The subject follows the user's own presence, once.
  unfoldable pub send_initial_subject : Conversation J → Conversation J
  send_initial_subject c =
      if c.sent_initial_presence && not c.sent_initial_subject && is_some c.subject
      then emit_message c.subject (record c { sent_initial_subject = true })
      else c

  -- `renamed` is the call for the new name.
  unfoldable pub change_participant :
      (Conversation J → Conversation J) → Text → Change → Conversation J → Conversation J
  change_participant renamed alias x c =
      let r = generate_presence (record x { nick = if is_empty alias then x.nick else alias }) c in
      let told = send_to_all c.jids r.0 (update_participant x.nick alias r.0 r.1) in
      let followed = send_initial_subject (if is_empty x.new_name then told else renamed told) in
      if is_error r.0.kind then emit (Sent.leave_room followed.legacy_name) followed else followed

  unfoldable pub handle_participant_changed : Text → Change → Conversation J → Conversation J
  handle_participant_changed alias x c =
      change_participant
        (change_participant (λ d. d) [] (record x { nick = x.new_name; new_name = [] })) alias x c

  unfoldable pub handle_raw_presence : J → RoomPresence J → Conversation J → Conversation J
  handle_raw_presence to p c =
      let key = transport.resource p.sender in
      let alias : Text = elim (lookup key c.participants) [ none ↦ [] | some q ↦ q.alias ] in
      record (emit (Sent.presence to p) c) {
        participants = insert key (record { presence = p; alias = alias }) c.participants;
      }

  module _ ⦃same : Eq J⦄ where
    unfoldable pub remove_jid : J → Conversation J → Conversation J
    remove_jid j c =
        let left =
          if c.muc then present j (record (online c.nickname []) { status = 5 }) c else c in
        record left { jids = remove j left.jids }

  -- The presence that tells that the transport shuts down.
  unfoldable pub shut_down_presence : Conversation J → RoomPresence J
  shut_down_presence c = record (plain_presence (record (online c.nickname []) { status = 5 }) c) {
    show = 0;
    codes = 332 ∷ 307 ∷ [];
  }

  unfoldable pub destroy_room : Conversation J → Conversation J
  destroy_room c = if c.muc then send_to_all c.jids (shut_down_presence c) c else c

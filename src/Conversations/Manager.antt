-- ===== src/Conversations/Manager.antt =====
-- ConversationManager (libtransport/ConversationManager.cpp): the conversations of one user by
-- legacy name. A `Conversation *` is a number, its address.
use spectrum.Prelude.{
  ℕ, zero, suc, ◌+◌, Bool, false, not, ◌&&◌, List, [], ◌∷◌, ◌++◌, Option, none, some, Text, nat_eq,
  text_eq, Eq, ◌==◌, if◌then◌else◌, is_empty, length,
}
use spectrum.Prelude.Maps.{Map, lookup, insert, erase}
use spectrum.Conversations.State.{Conversation, Transport, new_conversation, set_room, set_nickname}
use spectrum.Conversations.Messages.{send_cached_messages}
use spectrum.Conversations.Participants.{remove_jid, destroy_room}

pub record ConversationManager (J : Type 0) : Type 0 where
  pub user_jid : J
  pub convs : Map Text ℕ
  pub next : ℕ
  pub conv : ℕ → Conversation J
  -- Messages that were handed to a conversation for the legacy network, newest last.
  pub to_network : List (ℕ × Text)
  -- Rooms that the user is to leave, newest last.
  pub to_leave : List Text

abbrev pub put_before : ℕ → Option (Text × Text) → Option (Text × Text)
put_before c none = none
put_before c (some (a, b)) = some (c ∷ a, b)

-- The parts before and behind the first slash.
unfoldable pub split_slash : Text → Option (Text × Text)
split_slash [] = none
split_slash (c ∷ s) =
    let rest = split_slash s in if c == 47 then some ([], s) else put_before c rest

-- A name with a slash that is not there itself is that of a member of a room: if the room is there,
-- the conversation with his nickname.
unfoldable pub get_within : ℕ → Text → Map Text ℕ → Option ℕ
get_within zero name convs = lookup name convs
get_within (suc fuel) name convs = elim (lookup name convs) [
  | some a ↦ some a
  | none ↦ elim (split_slash name) [
    | none ↦ none
    | some (room, nick) ↦ elim (lookup room convs) [
      | none ↦ none
      | some _ ↦ get_within fuel nick convs
    ]
  ]
]

module _ {J : Type 0} where
  abbrev pub update_conv :
      ℕ → (Conversation J → Conversation J) → ConversationManager J → ConversationManager J
  update_conv a f s = record s { conv = λ b. if a == b then f (s.conv b) else s.conv b }

  -- On each conversation of the map.
  unfoldable pub for_each :
      (Conversation J → Conversation J) → Map Text ℕ → ConversationManager J → ConversationManager J
  for_each f [] s = s
  for_each f ((_, a) ∷ rest) s = for_each f rest (update_conv a f s)

  unfoldable pub get_conversation : Text → ConversationManager J → Option ℕ
  get_conversation name s = get_within (length name) name s.convs

  unfoldable pub add_conversation : ℕ → ConversationManager J → ConversationManager J
  add_conversation a s = record s { convs = insert (s.conv a).legacy_name a s.convs }

  -- Private conversations of the room are told that it is gone.
  unfoldable pub leave_if_of : Text → Conversation J → Conversation J
  leave_if_of name c = if c.room == name then set_room [] c else c

  unfoldable pub remove_conversation : ℕ → ConversationManager J → ConversationManager J
  remove_conversation a s =
      let told = for_each (leave_if_of (s.conv a).legacy_name) s.convs s in
      record told { convs = erase (told.conv a).legacy_name told.convs }

  unfoldable pub clear_jids : ConversationManager J → ConversationManager J
  clear_jids s = for_each (λ c. record c { jids = [] }) s.convs s

module _ {J : Type 0} (transport : Transport J) where
  unfoldable pub send_cached_chat_messages : J → ConversationManager J → ConversationManager J
  send_cached_chat_messages invalid s =
      for_each (λ c. if c.muc then c else send_cached_messages transport invalid c) s.convs s

  unfoldable pub reset_resources : ConversationManager J → ConversationManager J
  reset_resources s =
      for_each (λ c. if c.muc then c else record c { jid = transport.to_bare s.user_jid }) s.convs s

  -- The rooms without a JID, in the order of the map.
  unfoldable pub empty_rooms : Map Text ℕ → ConversationManager J → List Text
  empty_rooms [] s = []
  empty_rooms ((name, a) ∷ rest) s =
      let more = empty_rooms rest s in
      if not (is_empty name) && is_empty (s.conv a).jids && (s.conv a).muc
      then name ∷ more
      else more

  -- `toRemove` is emptied from its end.
  unfoldable pub reversed : List Text → List Text
  reversed [] = []
  reversed (n ∷ ns) = reversed ns ++ n ∷ []

  unfoldable pub named_only : Map Text ℕ → Map Text ℕ
  named_only [] = []
  named_only ((name, a) ∷ rest) =
      let more = named_only rest in if is_empty name then more else (name, a) ∷ more

  module _ ⦃same : Eq J⦄ where
    unfoldable pub remove_jid_everywhere : Bool → J → ConversationManager J → ConversationManager J
    remove_jid_everywhere stay_connected j s =
        let left = for_each (remove_jid transport j) (named_only s.convs) s in
        if stay_connected
        then left
        else record left { to_leave = left.to_leave ++ reversed (empty_rooms left.convs left) }

  unfoldable pub delete_all_conversations : ConversationManager J → ConversationManager J
  delete_all_conversations s =
      let destroyed = for_each (destroy_room transport) s.convs s in record destroyed { convs = [] }

  -- A new conversation in the map; `f` sets it up.
  unfoldable pub create_conversation :
      Text → (Conversation J → Conversation J) → ConversationManager J → ConversationManager J
  create_conversation name f s =
      let a = s.next in
      add_conversation a (record s {
        next = a + 1;
        conv =
            λ b. if a == b then f (new_conversation transport s.user_jid name false) else s.conv b;
      })

  -- Of a private message in a room, the conversation with the member; `resource` is his nickname.
  unfoldable pub open_private : Text → Text → ConversationManager J → ConversationManager J
  open_private room resource s = elim (lookup (room ++ 47 ∷ resource) s.convs) [
    | some _ ↦ s
    | none ↦
        create_conversation resource (λ c. set_nickname (room ++ 47 ∷ resource) (set_room room c)) s
  ]

  unfoldable pub hand_over : Text → J → Text → ConversationManager J → ConversationManager J
  hand_over name from body s = elim (lookup name s.convs) [
    | none ↦ s
    | some a ↦ record (update_conv a (λ c. record c { jid = from }) s) {
      to_network = s.to_network ++ (a, body) ∷ [];
    }
  ]

  unfoldable pub open_found :
      Option ℕ → Bool → Text → Text → ConversationManager J → Text × ConversationManager J
  open_found none to_room name resource s = (name, create_conversation name (λ c. c) s)
  open_found (some a) to_room name resource s =
      if (s.conv a).muc && not to_room
      then (name ++ 47 ∷ resource, open_private name resource s)
      else (name, s)

  -- A message of the user; `name` is the legacy name of its receiver, `resource` his resource, and
  -- `to_room` tells whether its type is groupchat.
  unfoldable pub handle_message_received :
      Bool → Text → Text → J → Text → ConversationManager J → ConversationManager J
  handle_message_received to_room name resource from body s =
      let opened = open_found (lookup name s.convs) to_room name resource s in
      if is_empty name then s else hand_over opened.0 from body opened.1

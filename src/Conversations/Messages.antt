-- ===== src/Conversations/Messages.antt =====
-- Messages from the legacy network to the user (libtransport/Conversation.cpp): handleMessage, the
-- carbons, handleRawMessage, and the messages that are kept until somebody can read them.
use spectrum.Prelude.{
  Bool, true, false, not, ◌&&◌, List, [], ◌∷◌, ◌++◌, Option, none, some, Text, nat_eq, text_eq, Eq,
  ◌==◌, ltb, if◌then◌else◌, is_empty, length, drop,
}
use spectrum.Prelude.Maps.{lookup}
use spectrum.Names.{replace_last}
use spectrum.Conversations.State.{
  MessageType, normal, chat, groupchat, headline, Wrapper, Message, Sent, Conversation, Transport,
  emit, room_node,
}

abbrev pub or_else : {A : Type 0} → Option A → A → A
or_else none a = a
or_else (some b) a = b

-- What a message depends on outside of the conversation: the buddy's JID, whether the user wants
-- headlines and keeps messages, the senders of all his presences, and of the highest one.
pub record Surroundings (J : Type 0) : Type 0 where
  pub buddy : Option J
  pub send_headlines : Bool
  pub caches : Bool
  pub presences : List J
  pub highest : Option J

abbrev pub is_groupchat : MessageType → Bool
is_groupchat groupchat = true
is_groupchat _ = false

abbrev pub is_headline : MessageType → Bool
is_headline headline = true
is_headline _ = false

-- "bot" and "user", resources.
abbrev pub bot : Text
bot = 98 ∷ 111 ∷ 116 ∷ []

abbrev pub user : Text
user = 117 ∷ 115 ∷ 101 ∷ 114 ∷ []

module _ {J : Type 0} where
  -- The message is stamped with the time and put at the end; of more than 100 the first goes.
  unfoldable pub cache_message : Message J → Conversation J → Conversation J
  cache_message m c =
      let cached = c.cached_messages ++ record m { is_delayed = true } ∷ [] in
      record c { cached_messages = if ltb 100 (length cached) then drop 1 cached else cached }

  -- A wrapper has no subject of its own.
  unfoldable pub own_subject : Message J → Text
  own_subject m = if is_empty m.wrapped then m.subject else []

  -- To each JID in the room. A subject waits for the user's own presence, and ends the loop.
  unfoldable pub send_room : List J → Message J → Conversation J → Conversation J
  send_room [] m c = c
  send_room (j ∷ js) m c =
      let m' = record m { receiver = j } in
      let kept = if is_empty (own_subject m) then c else record c { subject = some m' } in
      let rest = send_room js m (emit (Sent.message m') kept) in
      if not (is_empty (own_subject m)) && not c.sent_initial_presence then kept else rest

  unfoldable pub send_all : J → List (Message J) → Conversation J → Conversation J
  send_all to [] c = c
  send_all to (m ∷ ms) c = send_all to ms (emit (Sent.message (record m { receiver = to })) c)

  unfoldable pub send_subject : J → Option (Message J) → Conversation J → Conversation J
  send_subject to none c = c
  send_subject to (some m) c =
      let m' = record m { receiver = to } in emit (Sent.message m') (record c { subject = some m' })

module _ {J : Type 0} (transport : Transport J) where
  -- `caches` is what `shouldCacheMessages` of the user answers.
  unfoldable pub handle_raw_message : Bool → Message J → Conversation J → Conversation J
  handle_raw_message caches m c =
      if is_groupchat m.kind
      then (if is_empty c.jids then cache_message m c else send_room c.jids m c)
      else (if transport.server_mode && caches then cache_message m c else emit (Sent.message m) c)

  unfoldable pub wrap : Wrapper → MessageType → J → J → Message J → Message J
  wrap w kind from to m = record m {
    kind = kind;
    sender = from;
    receiver = to;
    is_delayed = false;
    wrapped = (w, m.kind, m.sender, m.receiver) ∷ m.wrapped;
  }

  unfoldable pub forward_impersonated : Bool → Message J → J → Conversation J → Conversation J
  forward_impersonated caches m server c =
      handle_raw_message caches (wrap Wrapper.privilege normal transport.own_jid server m) c

  unfoldable pub forward_as_carbon_sent : Bool → Message J → J → Conversation J → Conversation J
  forward_as_carbon_sent caches m to c =
      let carbon = wrap Wrapper.carbon_sent m.kind (transport.to_bare c.jid) to m in
      if transport.server_mode
      then handle_raw_message caches carbon c
      else forward_impersonated caches carbon (transport.domain carbon.sender) c

  unfoldable pub forward_as_carbon_received : Bool → Message J → J → Conversation J → Conversation J
  forward_as_carbon_received caches m to c =
      handle_raw_message caches (wrap Wrapper.carbon_received m.kind (transport.to_bare c.jid) to m)
        c

  unfoldable pub carbons_sent : Bool → Message J → List J → Conversation J → Conversation J
  carbons_sent caches m [] c = c
  carbons_sent caches m (j ∷ js) c = carbons_sent caches m js (forward_as_carbon_sent caches m j c)

  module _ ⦃same : Eq J⦄ where
    unfoldable pub forward_received_copies :
        Bool → Message J → J → List J → Conversation J → Conversation J
    forward_received_copies caches m delivered [] c = c
    forward_received_copies caches m delivered (j ∷ js) c =
        forward_received_copies caches m delivered js
          (if j == delivered then c else forward_as_carbon_received caches m j c)

    unfoldable pub get_delivery_jid : Option J → Conversation J → J
    get_delivery_jid highest c = if transport.is_bare c.jid then or_else highest c.jid else c.jid

    unfoldable pub message_type : Bool → MessageType → Conversation J → MessageType
    message_type send_headlines kind c =
        if c.muc then groupchat else if is_headline kind && send_headlines then headline else chat

    -- The legacy name of somebody who is no buddy, as a node.
    unfoldable pub stranger : Conversation J → J
    stranger c =
        transport.at
          (if transport.jid_escaping
            then transport.escape c.legacy_name
            else replace_last 64 37 c.legacy_name)
          bot

    unfoldable pub chat_sender : Option J → Text → Conversation J → J
    chat_sender buddy n c =
        if is_empty n
        then or_else buddy (stranger c)
        else if is_empty c.room
        then transport.at n user
        else transport.at (room_node transport c.room c) n

    -- The nickname in the room, or its alias; a space where there is none.
    unfoldable pub room_nickname : Text → Conversation J → Text
    room_nickname nickname c =
        let n = if is_empty nickname then 32 ∷ [] else nickname in
        elim (lookup n c.participants) [
          | none ↦ n
          | some p ↦ if is_empty p.alias then n else p.alias
        ]

    -- The message with its type and its addresses.
    unfoldable pub address : Surroundings J → Text → Message J → Conversation J → Message J
    address around nickname m c =
        let kind = message_type around.send_headlines m.kind c in
        if is_groupchat kind
        then record m {
          kind = kind;
          sender = transport.at (room_node transport c.legacy_name c) (room_nickname nickname c);
        }
        else record m {
          kind = kind;
          receiver = c.jid;
          sender =
              chat_sender around.buddy
                (if is_empty nickname && not (is_empty c.room) then c.nickname else nickname) c;
        }

    -- Sent by the user from another client of the legacy network.
    unfoldable pub handle_carbon : Surroundings J → Message J → Conversation J → Conversation J
    handle_carbon around m c =
        let swapped = record m { sender = transport.to_bare m.receiver; receiver = m.sender } in
        carbons_sent around.caches swapped
          (if is_empty around.presences then transport.to_bare c.jid ∷ [] else around.presences) c

    unfoldable pub handle_incoming : Surroundings J → Message J → Conversation J → Conversation J
    handle_incoming around m c =
        let handled = handle_raw_message around.caches m c in
        if transport.server_mode && not c.muc && not (is_groupchat m.kind)
        then forward_received_copies around.caches m (get_delivery_jid around.highest handled)
            around.presences handled
        else handled

    unfoldable pub handle_message :
        Surroundings J → Bool → Text → Message J → Conversation J → Conversation J
    handle_message around carbon nickname m c =
        if carbon
        then handle_carbon around (address around nickname m c) c
        else handle_incoming around (address around nickname m c) c

  -- To a resource, or where it is not valid to the bare JID.
  unfoldable pub send_cached_messages : J → Conversation J → Conversation J
  send_cached_messages to c =
      let target = if transport.is_valid to then to else transport.to_bare c.jid in
      let flushed = send_subject target c.subject (send_all target c.cached_messages c) in
      record flushed { cached_messages = [] }

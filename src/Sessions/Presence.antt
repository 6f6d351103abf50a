-- ===== src/Sessions/Presence.antt =====
-- handlePresence, setConnected and the decision to connect (libtransport/User.cpp).
use spectrum.Prelude.{
  Bool, true, false, not, ◌&&◌, ◌||◌, List, [], ◌∷◌, Option, none, some, Text, nat_eq, text_eq, Eq,
  ◌==◌, if◌then◌else◌, is_empty, length,
}
use spectrum.Presences.{PresenceType, unavailable, is_unavailable}
use spectrum.Conversations.Manager.{
  clear_jids, send_cached_chat_messages, reset_resources, remove_jid_everywhere,
}
use spectrum.Sessions.State.{
  Stanza, Signal, Host, Around, User, connecting, emit, with_conversations, is_muc,
}
use spectrum.Sessions.Rooms.{leave_room, make_ready, handle_join, handle_leave}

-- The highest presence exists and is not Unavailable.
abbrev pub is_online : Option PresenceType → Bool
is_online none = false
is_online (some k) = not (is_unavailable k)

module _ {J : Type 0} where
  -- A new photo is remembered and its vCard asked for.
  unfoldable pub handle_photo : Option Text → User J → User J
  handle_photo none u = u
  handle_photo (some hash) u = elim u.photo [
    | none ↦ if is_empty hash then u else emit Signal.request_vcard u
    | some old ↦
        if old == hash then u else emit Signal.request_vcard (record u { photo = some hash })
  ]

  -- The answer to one client that is there.
  unfoldable pub tell_state : Bool → Option PresenceType → J → Signal J
  tell_state false highest to = Signal.send_presence unavailable connecting to
  tell_state true none to = Signal.send_presence unavailable [] to
  tell_state true (some k) to = Signal.send_highest to

  unfoldable pub tell_clients : Option PresenceType → List (J × PresenceType) → User J → User J
  tell_clients highest [] u = u
  tell_clients highest ((j, k) ∷ rest) u =
      tell_clients highest rest
        (if is_unavailable k then u else emit (tell_state u.connected highest j) u)

module _ {J : Type 0} (host : Host J) (around : Around J) where
  unfoldable pub send_current_presence : User J → User J
  send_current_presence u =
      if host.transport.server_mode then u else tell_clients around.highest around.presences u

  -- Not connected yet: at once where the capabilities are known, else the timer is started.
  unfoldable pub try_connect : Stanza J → User J → User J
  try_connect p u =
      if u.connected || u.ready_for_connect
      then u
      else if (if p.has_caps then around.capabilities p.sender else host.transport.server_mode)
      then make_ready u
      else record u { timer = true }

  -- An invalid JID stands for the default argument of sendCachedMessages.
  unfoldable pub set_cache_messages : J → Bool → User J → User J
  set_cache_messages invalid caches u =
      record (if host.transport.server_mode && not u.cache_messages && caches
        then with_conversations (send_cached_chat_messages host.transport invalid u.conversations) u
        else u) { cache_messages = caches }

  -- Nobody is there, and the user wants to stay connected.
  unfoldable pub stay : J → User J → User J
  stay invalid u =
      set_cache_messages invalid true
        (record u { resources = 0; conversations = clear_jids u.conversations })

  -- The user's presence on the legacy network becomes his highest one.
  unfoldable pub change_to : J → Option PresenceType → User J → User J
  change_to invalid none u = emit (Signal.presence_changed unavailable) u
  change_to invalid (some k) u =
      set_cache_messages invalid false (emit (Signal.presence_changed k) u)

  unfoldable pub change_presence : J → User J → User J
  change_presence invalid u =
      if not u.ready_for_connect
      then u
      else if not (is_online around.highest) && u.stay_connected
      then stay invalid u
      else change_to invalid around.highest u

  unfoldable pub leave_rooms : List Text → User J → User J
  leave_rooms [] u = u
  leave_rooms (room ∷ rooms) u = leave_rooms rooms (leave_room host room u)

  module _ ⦃same : Eq J⦄ where
    -- ConversationManager::removeJID, with the rooms that it makes the user leave.
    unfoldable pub remove_client : J → User J → User J
    remove_client j u =
        let s =
          remove_jid_everywhere host.transport u.stay_connected j
            (record u.conversations { to_leave = [] }) in
        leave_rooms s.to_leave (with_conversations (record s { to_leave = [] }) u)

    unfoldable pub answer_client : Stanza J → User J → User J
    answer_client p u =
        if host.transport.server_mode
        then u
        else if is_unavailable p.kind
        then emit (Signal.send_presence unavailable [] p.sender)
            (emit (Signal.send_unavailable_presences p.sender) u)
        else send_current_presence u

    unfoldable pub greet_new : Stanza J → User J → User J
    greet_new p u =
        let greeted =
          if not (is_unavailable p.kind) && not (length around.presences == u.resources)
          then emit (Signal.send_current_presences p.sender) u
          else u in
        record greeted { resources = length around.presences }

    -- A presence that is not for a room.
    unfoldable pub handle_general : J → Stanza J → User J → User J
    handle_general invalid p u =
        let reset = with_conversations (reset_resources host.transport u.conversations) u in
        let left = if is_unavailable p.kind then remove_client p.sender reset else reset in
        change_presence invalid (greet_new p (answer_client p left))

    unfoldable pub handle_addressed : J → Bool → Stanza J → User J → User J
    handle_addressed invalid force p u =
        if is_unavailable p.kind
        then handle_leave host p u
        else if is_muc host p
        then handle_join host force p u
        else handle_general invalid p (emit (Signal.raw_presence p) u)

    unfoldable pub handle_presence : J → Bool → Stanza J → User J → User J
    handle_presence invalid force p u =
        let tried = try_connect p (handle_photo p.photo_hash u) in
        if is_empty (host.node p.receiver)
        then handle_general invalid p tried
        else handle_addressed invalid force p tried

    -- The rooms that were joined are joined again.
    unfoldable pub rejoin : J → List (Stanza J) → User J → User J
    rejoin invalid [] u = u
    rejoin invalid (p ∷ ps) u = rejoin invalid ps (handle_presence invalid true p u)

    unfoldable pub set_connected : J → Bool → User J → User J
    set_connected invalid connected u =
        let told =
          send_current_presence (record u {
            connected = connected;
            reconnect_counter = 0;
            ignore_disconnect = false;
          }) in
        if connected then rejoin invalid told.joined_rooms told else told

  unfoldable pub tell_presence : Option PresenceType → User J → User J
  tell_presence none u = u
  tell_presence (some k) u = emit (Signal.presence_changed k) u

  -- Also what handleDiscoInfo does, once it has stored the capabilities.
  unfoldable pub on_connecting_timeout : User J → User J
  on_connecting_timeout u =
      if u.connected || u.ready_for_connect
      then u
      else let ready = make_ready (record u { timer = false }) in tell_presence around.highest ready

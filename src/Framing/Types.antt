-- ===== src/Framing/Types.antt =====
-- The types of wrapper messages (include/transport/protocol.proto), which function of either side
-- sends which, and which ones the other side's switch knows.
use spectrum.Prelude.{◌≡◌, ◌↔◌, ◌⊎◌, Bool, true, false, arith}

pub data WrapperType : Type 0 where
  connected disconnected login logout buddy_changed buddy_removed conv_message ping pong :
      WrapperType
  join_room leave_room participant_changed room_nickname_changed : WrapperType
  room_subject_changed vcard status_changed buddy_typing buddy_stopped_typing : WrapperType
  buddy_typed auth_request attention stats ft_start ft_finish ft_data ft_pause : WrapperType
  ft_continue exit backend_config query room_list conv_message_ack raw_xml buddies : WrapperType
  api_version : WrapperType

-- The switch of NetworkPluginServer::handleDataRead: true where there is a `case`.
pub server_knows : WrapperType → Bool
server_knows WrapperType.connected = true
server_knows WrapperType.disconnected = true
server_knows WrapperType.buddy_changed = true
server_knows WrapperType.conv_message = true
server_knows WrapperType.room_subject_changed = true
server_knows WrapperType.pong = true
server_knows WrapperType.participant_changed = true
server_knows WrapperType.room_nickname_changed = true
server_knows WrapperType.vcard = true
server_knows WrapperType.buddy_typing = true
server_knows WrapperType.buddy_typed = true
server_knows WrapperType.buddy_stopped_typing = true
server_knows WrapperType.auth_request = true
server_knows WrapperType.attention = true
server_knows WrapperType.stats = true
server_knows WrapperType.buddy_removed = true
server_knows WrapperType.query = true
server_knows WrapperType.backend_config = true
server_knows WrapperType.room_list = true
server_knows WrapperType.conv_message_ack = true
server_knows WrapperType.raw_xml = true
server_knows _ = false

-- The switch of NetworkPlugin::handleDataRead.
pub plugin_knows : WrapperType → Bool
plugin_knows WrapperType.login = true
plugin_knows WrapperType.logout = true
plugin_knows WrapperType.ping = true
plugin_knows WrapperType.conv_message = true
plugin_knows WrapperType.room_subject_changed = true
plugin_knows WrapperType.join_room = true
plugin_knows WrapperType.leave_room = true
plugin_knows WrapperType.vcard = true
plugin_knows WrapperType.buddy_changed = true
plugin_knows WrapperType.buddy_removed = true
plugin_knows WrapperType.status_changed = true
plugin_knows WrapperType.buddy_typing = true
plugin_knows WrapperType.buddy_typed = true
plugin_knows WrapperType.buddy_stopped_typing = true
plugin_knows WrapperType.attention = true
plugin_knows WrapperType.exit = true
plugin_knows WrapperType.raw_xml = true
plugin_knows _ = false

-- The functions of NetworkPlugin that write to the server.
pub data PluginCall : Type 0 where
  send_config send_raw_xml handle_message handle_message_ack handle_attention : PluginCall
  handle_vcard handle_subject handle_buddy_changed handle_buddy_removed : PluginCall
  handle_buddy_typing handle_buddy_typed handle_buddy_stopped_typing : PluginCall
  handle_authorization handle_connected handle_disconnected : PluginCall
  handle_participant_changed handle_room_nickname_changed handle_room_list : PluginCall
  send_pong send_memory_usage : PluginCall

pub plugin_sends : PluginCall → WrapperType
plugin_sends send_config = WrapperType.backend_config
plugin_sends send_raw_xml = WrapperType.raw_xml
plugin_sends handle_message = WrapperType.conv_message
plugin_sends handle_message_ack = WrapperType.conv_message_ack
plugin_sends handle_attention = WrapperType.attention
plugin_sends handle_vcard = WrapperType.vcard
plugin_sends handle_subject = WrapperType.room_subject_changed
plugin_sends handle_buddy_changed = WrapperType.buddy_changed
plugin_sends handle_buddy_removed = WrapperType.buddy_removed
plugin_sends handle_buddy_typing = WrapperType.buddy_typing
plugin_sends handle_buddy_typed = WrapperType.buddy_typed
plugin_sends handle_buddy_stopped_typing = WrapperType.buddy_stopped_typing
plugin_sends handle_authorization = WrapperType.auth_request
plugin_sends handle_connected = WrapperType.connected
plugin_sends handle_disconnected = WrapperType.disconnected
plugin_sends handle_participant_changed = WrapperType.participant_changed
plugin_sends handle_room_nickname_changed = WrapperType.room_nickname_changed
plugin_sends handle_room_list = WrapperType.room_list
plugin_sends send_pong = WrapperType.pong
plugin_sends send_memory_usage = WrapperType.stats

-- The server's switch has a case for whatever a plugin sends.
pub server_knows-plugin_sends : (c : PluginCall) → server_knows (plugin_sends c) ≡ true
unfolding server_knows plugin_sends
server_knows-plugin_sends c = ground arith

-- The functions of NetworkPluginServer that write to a backend.
pub data ServerCall : Type 0 where
  stop_backend handle_query_payload send_presence send_iq login send_buddies : ServerCall
  handle_user_presence_changed handle_room_joined handle_room_left : ServerCall
  handle_user_destroyed message_raw message_active message_composing message_paused : ServerCall
  message_attention message_subject message_body handle_buddy_removed : ServerCall
  handle_buddy_updated handle_user_buddy_added handle_block_toggled : ServerCall
  handle_vcard_updated handle_vcard_required send_ping send_api_version : ServerCall

pub server_sends : ServerCall → WrapperType
server_sends ServerCall.stop_backend = WrapperType.exit
server_sends ServerCall.handle_query_payload = WrapperType.query
server_sends ServerCall.send_presence = WrapperType.raw_xml
server_sends ServerCall.send_iq = WrapperType.raw_xml
server_sends ServerCall.login = WrapperType.login
server_sends ServerCall.send_buddies = WrapperType.buddies
server_sends ServerCall.handle_user_presence_changed = WrapperType.status_changed
server_sends ServerCall.handle_room_joined = WrapperType.join_room
server_sends ServerCall.handle_room_left = WrapperType.leave_room
server_sends ServerCall.handle_user_destroyed = WrapperType.logout
server_sends ServerCall.message_raw = WrapperType.raw_xml
server_sends ServerCall.message_active = WrapperType.buddy_stopped_typing
server_sends ServerCall.message_composing = WrapperType.buddy_typing
server_sends ServerCall.message_paused = WrapperType.buddy_typed
server_sends ServerCall.message_attention = WrapperType.attention
server_sends ServerCall.message_subject = WrapperType.room_subject_changed
server_sends ServerCall.message_body = WrapperType.conv_message
server_sends ServerCall.handle_buddy_removed = WrapperType.buddy_removed
server_sends ServerCall.handle_buddy_updated = WrapperType.buddy_changed
server_sends ServerCall.handle_user_buddy_added = WrapperType.buddy_changed
server_sends ServerCall.handle_block_toggled = WrapperType.buddy_changed
server_sends ServerCall.handle_vcard_updated = WrapperType.vcard
server_sends ServerCall.handle_vcard_required = WrapperType.vcard
server_sends ServerCall.send_ping = WrapperType.ping
server_sends ServerCall.send_api_version = WrapperType.api_version

-- The plugin's switch has no case for exactly three of the messages that the server writes: the
-- roster at login, the answer to a query and the API version.
plugin_knows-server_sends :
    (c : ServerCall)
    → (plugin_knows (server_sends c) ≡ false) ↔ (
        (c ≡ ServerCall.send_buddies)
        ⊎ (c ≡ ServerCall.handle_query_payload)
        ⊎ (c ≡ ServerCall.send_api_version))
unfolding plugin_knows server_sends
plugin_knows-server_sends c = ground arith

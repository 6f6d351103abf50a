-- ===== src/Conversations/Tests.antt =====
-- A room `5` with a private conversation `5/6`, and messages for an empty room; JIDs are numbers.
use spectrum.Prelude.{ℕ, ◌≤◌, ◌≡◌, refl, true, false, List, [], ◌∷◌, some, nat_eq, text_eq, length}
use spectrum.Prelude.Keys.{text_beq}
use spectrum.Prelude.Maps.{lookup, insert}
use spectrum.Conversations.State.{
  MessageType, Message, Conversation, Transport, new_conversation, set_room, set_nickname,
}
use spectrum.Conversations.Manager.{
  ConversationManager, handle_message_received, remove_conversation, create_conversation,
  add_conversation, open_private, open_found, hand_over,
}
use spectrum.Conversations.Cached.{last, Occurrence, occur_all, unread, cached_messages-last}
use spectrum.Conversations.Private.{remove_conversation-stale}
use spectrum.Conversations.Participants.{Change, failure_of, handle_participant_changed}
use spectrum.Conversations.Renames.{is_present, is_present-handle_participant_changed}

abbrev numbers : Transport ℕ
numbers = record {
  to_bare = λ j. j;
  domain = λ j. j;
  is_bare = λ j. true;
  is_valid = λ j. true;
  resource = λ j. [];
  escape = λ s. s;
  at = λ node resource. 0;
  own_jid = 1;
  server_mode = false;
  jid_escaping = true;
  raw_xml = false;
}

abbrev room : Conversation ℕ
room = new_conversation numbers 7 (5 ∷ []) true

abbrev said : Message ℕ
said = record {
  kind = MessageType.groupchat;
  sender = 0;
  receiver = 7;
  is_delayed = false;
  wrapped = [];
  body = 9 ∷ [];
  subject = [];
}

-- One message is kept, read, and one is kept again.
abbrev history : List (Occurrence ℕ)
history = Occurrence.raw false said ∷ Occurrence.flush 7 ∷ Occurrence.raw false said ∷ []

cached_messages-last_example :
    ((occur_all numbers history room).cached_messages ≡ last 100 (unread numbers history [] []))
    × (length (occur_all numbers history room).cached_messages ≤ 100)
unfolding new_conversation
cached_messages-last_example = cached_messages-last numbers history room refl

one_unread : unread numbers history [] [] ≡ record said { is_delayed = true } ∷ []
one_unread = refl

abbrev empty_manager : ConversationManager ℕ
empty_manager = record {
  user_jid = 7;
  convs = (5 ∷ [], 0) ∷ [];
  next = 1;
  conv = λ a. room;
  to_network = [];
  to_leave = [];
}

-- A private message to 6 in the room.
abbrev private : ConversationManager ℕ
private = handle_message_received numbers false (5 ∷ []) (6 ∷ []) 8 (9 ∷ []) empty_manager

private_name : (private.conv 1).legacy_name ≡ 5 ∷ 47 ∷ 6 ∷ []
unfolding handle_message_received create_conversation add_conversation open_private open_found
    hand_over new_conversation set_room set_nickname lookup insert text_beq
private_name = refl

remove_conversation-stale_example :
    (((remove_conversation 0 private).conv 1).legacy_name ≡ 47 ∷ (private.conv 1).legacy_name)
    × (lookup (private.conv 1).legacy_name (remove_conversation 0 private).convs ≡ some 1)
    × (lookup
          (private.conv 1).legacy_name
          (remove_conversation 1 (remove_conversation 0 private)).convs
        ≡ some 1)
unfolding handle_message_received create_conversation add_conversation open_private open_found
    hand_over new_conversation set_room set_nickname lookup insert text_beq
remove_conversation-stale_example =
    remove_conversation-stale 0 1 (6 ∷ []) private refl refl refl refl refl

-- The participant 6 is there, and calls himself 8.
abbrev arrival : Change
arrival = record { nick = 6 ∷ []; flag = 0; status = 0; text = []; new_name = []; icon_hash = [] }

abbrev with_six : Conversation ℕ
with_six = handle_participant_changed numbers [] arrival room

is_present-handle_participant_changed_example :
    is_present
      (8 ∷ [])
      (handle_participant_changed numbers [] (record arrival { new_name = 8 ∷ [] }) with_six)
    ≡ true
unfolding failure_of text_beq
is_present-handle_participant_changed_example =
    is_present-handle_participant_changed numbers (8 ∷ []) [] (record arrival { new_name = 8 ∷ [] })
      with_six refl

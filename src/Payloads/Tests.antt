-- ===== src/Payloads/Tests.antt =====
-- A user in the room `r`, where `n` sends him a private message; JIDs are texts. A message that calls
-- for attention. A roster with the buddy 3, called `b`, and a message about `c`.
use spectrum.Prelude.{
  ℕ, ◌+◌, ◌≡◌, refl, Bool, true, false, not, ◌&&◌, ◌||◌, [], ◌∷◌, none, some, Text, nat_eq, text_eq,
  ◌==◌, if◌then◌else◌, is_empty, arith,
}
use spectrum.Prelude.Maps.{lookup}
use spectrum.Conversations.State.{Transport, new_conversation}
use spectrum.Conversations.Messages.{Surroundings}
use spectrum.Conversations.Manager.{ConversationManager}
use spectrum.Sessions.State as Sessions
use spectrum.Users.State as Users
use spectrum.Users.State.{UserInfo}
use spectrum.Roster.Store.{Subscription, Buddy, Roster}
use spectrum.Roster.Found.{find}
use spectrum.Roster.Verdict.{Keyed}
use spectrum.Payloads.Handlers.{ConversationMessage, deliver}
use spectrum.Payloads.Buddies.{BuddyPayload, change_in_roster}
use spectrum.Payloads.Network.{
  ChatState, UserMessage, Wire, handle_message_received, send_from, send_rest, typing_of, is_some,
  crashes, sent, expected, handle_message_received_lem,
}
use spectrum.Payloads.Delivery.{has, target, deliver_lem}
use spectrum.Payloads.Rosters.{is_new, change_in_roster-Keyed}

abbrev texts : Transport Text
texts = record {
  to_bare = λ j. j;
  domain = λ j. [];
  is_bare = λ j. true;
  is_valid = λ j. true;
  resource = λ j. [];
  escape = λ s. s;
  at = λ node resource. node;
  own_jid = 9 ∷ [];
  server_mode = false;
  jid_escaping = true;
  raw_xml = false;
}

abbrev swift : Sessions.Host Text
swift = record { transport = texts; node = λ j. j; full = λ j. j; unescape = λ s. s }

abbrev unknown : UserInfo
unknown = record { id = 0; jid = []; uin = []; password = []; vip = false; settings = [] }

-- A database without users.
abbrev host : Users.Host Text ℕ
host = record {
  swift = record {
    bare = λ j. j;
    to_bare = λ j. j;
    bare-to_bare = λ j. refl;
    parse = λ j. j;
    bare-parse = λ j. refl;
    node = λ j. j;
    resource = λ j. [];
    full = λ j. j;
  };
  backend = record {
    get_user = λ name d. none;
    set_user = λ res d. d + 1;
    set_user_online = λ id on d. d;
    get_all_settings = λ id d settings. settings;
    get_user_setting = λ id name value d. (value, d);
  };
  blank = unknown;
}

abbrev near : Surroundings Text
near = record {
  buddy = none;
  send_headlines = false;
  caches = false;
  presences = [];
  highest = none;
}

abbrev in_room : ConversationManager Text
in_room = record {
  user_jid = 7 ∷ [];
  convs = (114 ∷ [], 0) ∷ [];
  next = 1;
  conv = λ a. new_conversation texts (7 ∷ []) (114 ∷ []) true;
  to_network = [];
  to_leave = [];
}

abbrev private : ConversationMessage
private = record {
  username = 7 ∷ [];
  buddyname = 114 ∷ [];
  nickname = 110 ∷ [];
  body = 104 ∷ [];
  is_headline = false;
  is_old = false;
  pm = true;
  carbon = false;
  id = [];
}

deliver_lem_example :
    (has (target private in_room) (deliver host swift near [] false private in_room)
      ≡ (has (114 ∷ []) in_room || is_empty private.nickname))
    × ((name : Text)
        → (has name in_room && not (has name (deliver host swift near [] false private in_room)))
          ≡ false)
deliver_lem_example = deliver_lem host swift near [] false private in_room

abbrev look_here : UserMessage
look_here = record {
  chat_state = some ChatState.active;
  attention = true;
  subject = [];
  body = 104 ∷ [];
  xhtml = [];
  wants_receipt = false;
  id = [];
}

handle_message_received_lem_example :
    (handle_message_received true look_here ≡ some (expected look_here))
    × (crashes (handle_message_received false look_here) ≡ (
        not (is_some (typing_of look_here.chat_state))
        && (look_here.attention || not (is_empty look_here.subject))))
    × (sent (handle_message_received false look_here) ≡ [])
handle_message_received_lem_example = handle_message_received_lem look_here

look_here_sent :
    handle_message_received true look_here
    ≡ some (Wire.stopped_typing ∷ Wire.attention (104 ∷ []) ∷ [])
unfolding handle_message_received send_from send_rest typing_of
look_here_sent = refl

abbrev buddy_b : Buddy
buddy_b = record {
  id = some 12;
  name = 98 ∷ [];
  alias = [];
  groups = [];
  subscription = Subscription.both;
  escaped = true;
  icon_hash = [];
}

abbrev roster : Roster
roster = record {
  server_mode = false;
  enable_remove_buddy = false;
  buddies = (98 ∷ [], some 3) ∷ [];
  buddy = λ a. buddy_b;
  live = λ a. a == 3;
  next = 4;
  queue = some [];
  effects = [];
}

abbrev lower : Text → Text
lower s = s

roster-Keyed : Keyed lower roster
unfolding lookup
roster-Keyed = record {
  named = λ key a h. ground (arith, text_eq.same_iff (98 ∷ []) key);
  alive = λ key a h. ground arith;
}

abbrev about_c : BuddyPayload
about_c = record {
  username = 7 ∷ [];
  buddyname = 99 ∷ [];
  alias = 67 ∷ [];
  groups = [];
  icon_hash = 1 ∷ [];
}

abbrev any_jid : Bool → Text → Bool
any_jid escaping name = true

change_in_roster-Keyed_example :
    Keyed lower (change_in_roster lower lower any_jid true (7 ∷ []) about_c roster)
    × ((key : Text)
        → find key (change_in_roster lower lower any_jid true (7 ∷ []) about_c roster) ≡ (
            if is_new any_jid true (7 ∷ []) about_c (find (99 ∷ []) roster) && ((99 ∷ []) == key)
            then some 4
            else find key roster))
change_in_roster-Keyed_example =
    change_in_roster-Keyed lower lower any_jid true (7 ∷ []) about_c roster roster-Keyed refl

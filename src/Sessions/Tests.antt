-- ===== src/Sessions/Tests.antt =====
-- A user with two clients 1 and 2, who join the room `#` as 350 and 351; JIDs are numbers, and the
-- last digit of one is its resource.
use spectrum.Prelude.{
  ℕ, ◌-◌, ◌/◌, ◌%◌, ◌≡◌, refl, Bool, true, false, not, ◌&&◌, List, [], ◌∷◌, ◌++◌, map, Option, none,
  some, Text, nat_eq, text_eq, All,
}
use spectrum.Prelude.Members.{count}
use spectrum.Presences.{available}
use spectrum.Conversations.State.{Transport, new_conversation}
use spectrum.Conversations.Manager.{ConversationManager}
use spectrum.Sessions.State.{Stanza, Host, Around, User, joins, room_of}
use spectrum.Sessions.Rooms.{leave_room}
use spectrum.Sessions.Presence.{handle_presence, set_connected}
use spectrum.Sessions.Quiet.{room_joins}
use spectrum.Sessions.Joined.{Inv}
use spectrum.Sessions.Open.{is_open}
use spectrum.Sessions.Rejoin.{set_connected-joins}
use spectrum.Sessions.Reached.{new_user, Reach, here, next, presence, connected, new_user-Reach-Inv}
use spectrum.Sessions.Leaving.{kept_rooms, kept_rooms-leave_room}

abbrev numbers : Transport ℕ
numbers = record {
  to_bare = λ j. j / 10;
  domain = λ j. 0;
  is_bare = λ j. true;
  is_valid = λ j. true;
  resource = λ j. j % 10 ∷ [];
  escape = λ s. s;
  at = λ node resource. 0;
  own_jid = 9;
  server_mode = false;
  jid_escaping = true;
  raw_xml = false;
}

abbrev host : Host ℕ
host = record {
  transport = numbers;
  node = λ j. j / 10 ∷ [];
  full = λ j. j ∷ [];
  unescape = λ s. s;
}

abbrev around : Around ℕ
around = record {
  presences = (1, available) ∷ (2, available) ∷ [];
  highest = some available;
  capabilities = λ j. false;
}

abbrev empty : ConversationManager ℕ
empty = record {
  user_jid = 7;
  convs = [];
  next = 1;
  conv = λ a. new_conversation numbers 7 [] false;
  to_network = [];
  to_leave = [];
}

abbrev join : ℕ → ℕ → Stanza ℕ
join from to = record {
  sender = from;
  receiver = to;
  kind = available;
  muc = none;
  has_caps = false;
  photo_hash = none;
}

abbrev start : User ℕ
start = new_user empty none false

abbrev both : User ℕ
both =
    handle_presence host around 0 false (join 2 351)
      (handle_presence host around 0 false (join 1 350) start)

abbrev both_reached : Reach host start both
both_reached =
    next (next here (presence around 0 (join 1 350) start))
      (presence around 0 (join 2 351) (handle_presence host around 0 false (join 1 350) start))

new_user-Reach-Inv_example : Inv host (set_connected host around 0 true both)
new_user-Reach-Inv_example =
    new_user-Reach-Inv host empty none false (set_connected host around 0 true both)
      (next both_reached (connected around 0 true both))

set_connected-joins_example :
    ((set_connected host around 0 true both).joined_rooms ≡ both.joined_rooms)
    × (room_joins (set_connected host around 0 true both).signals
        ≡ room_joins both.signals ++ map (joins host) both.joined_rooms)
    × All
        (λ p. is_open (room_of host p.receiver) (set_connected host around 0 true both) ≡ true)
        both.joined_rooms
    × ((name : Text)
        → (is_open name both && not (is_open name (set_connected host around 0 true both))) ≡ false)
set_connected-joins_example =
    set_connected-joins host around 0 both
      (new_user-Reach-Inv host empty none false both both_reached)

kept_rooms-leave_room_example :
    count (35 ∷ []) (kept_rooms host (leave_room host (35 ∷ []) both).joined_rooms)
    ≡ count (35 ∷ []) (kept_rooms host both.joined_rooms) - 1
unfolding spectrum.Prelude.Keys.text_beq
kept_rooms-leave_room_example = kept_rooms-leave_room host (35 ∷ []) (35 ∷ []) both

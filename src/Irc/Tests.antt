-- ===== src/Irc/Tests.antt =====
-- A plugin without a server; the user `u` joins `#a@h` and talks.
use spectrum.Prelude.{
  ℕ, ◌≤◌, ◌≡◌, refl, Bool, true, false, ◌||◌, suc, List, [], ◌∷◌, ◌++◌, Option, none, some, Text,
  nat_eq, text_eq, ◌==◌, length, All,
}
use spectrum.Prelude.Keys.{text_beq}
use spectrum.Prelude.Maps.{lookup}
use spectrum.Irc.Text.{
  message_lines, skip_newline, contains_char, session_name, target_name, address, before, after,
  find_from, atoi, trim_spaces, split_address, port_or, address_of, host_parts,
}
use spectrum.Irc.State.{Session, Plugin}
use spectrum.Irc.Requests.{
  look_up, look_up_found, name_of, handle_join_room_request, handle_leave_room_request,
  handle_message_send_request, slash_me,
}
use spectrum.Irc.Lines.{join_lines, message_lines-join}
use spectrum.Irc.Addresses.{address-range, session_name-member}
use spectrum.Irc.Gateway.{AllLive}
use spectrum.Irc.Reached.{here, next, join, leave, Reach-AllLive}
use spectrum.Irc.Throws.{is_none, handle_message_send_request-none}

-- A newline, `a`, two newlines, `b`.
abbrev two_lines : Text
two_lines = 10 ∷ 97 ∷ 10 ∷ 10 ∷ 98 ∷ []

message_lines-join_example :
    (lines : List Text) × (message_lines (suc (length two_lines)) two_lines ≡ some lines)
    × (join_lines lines ≡ skip_newline two_lines)
    × All (λ line. contains_char 10 line ≡ false) lines
message_lines-join_example = message_lines-join two_lines

two_lines_sent : message_lines 6 two_lines ≡ some ((97 ∷ []) ∷ [] ∷ (98 ∷ []) ∷ [])
unfolding message_lines find_from before
two_lines_sent = refl

-- "h:+70000"
abbrev far : Text
far = 104 ∷ 58 ∷ 43 ∷ 55 ∷ 48 ∷ 48 ∷ 48 ∷ 48 ∷ []

address-range_example : (1 ≤ (address far).port) × ((address far).port ≤ 65535)
address-range_example = address-range far

far_address : address far ≡ record { host = 104 ∷ []; port = 6697; secure = true }
unfolding address address_of host_parts split_address atoi trim_spaces port_or
far_address = refl

session_name-member_example :
    (session_name false false (117 ∷ []) ((35 ∷ 97 ∷ []) ++ 64 ∷ 104 ∷ []) ≡ 117 ∷ 104 ∷ [])
    × (session_name false false (117 ∷ []) (((35 ∷ 97 ∷ []) ++ 64 ∷ 104 ∷ []) ++ 47 ∷ 110 ∷ [])
        ≡ 117 ∷ 104 ∷ [])
    × (target_name ((35 ∷ 97 ∷ []) ++ 64 ∷ 104 ∷ []) ≡ 35 ∷ 97 ∷ [])
    × (target_name (((35 ∷ 97 ∷ []) ++ 64 ∷ 104 ∷ []) ++ 47 ∷ 110 ∷ []) ≡ 110 ∷ [])
session_name-member_example =
    session_name-member (117 ∷ []) (35 ∷ 97 ∷ []) (104 ∷ []) (110 ∷ []) refl refl refl refl

abbrev start : Plugin
start = record {
  server_mode = false;
  send_pass = false;
  identify_format = [];
  servers = [];
  current_server = 0;
  sessions = [];
  told = [];
}

-- "#a@h"
abbrev room : Text
room = 35 ∷ 97 ∷ 64 ∷ 104 ∷ []

abbrev joined : Plugin
joined = handle_join_room_request (117 ∷ []) room (110 ∷ []) [] start

Reach-AllLive_example : AllLive (handle_leave_room_request (117 ∷ []) room joined).sessions
Reach-AllLive_example =
    Reach-AllLive start (handle_leave_room_request (117 ∷ []) room joined) refl refl
      (next (next here (join (117 ∷ []) room (110 ∷ []) [] start)) (leave (117 ∷ []) room joined))

abbrev a_session : Session
a_session = record {
  user = 117 ∷ [];
  suffix = [];
  address = record { host = 104 ∷ []; port = 6667; secure = false };
  nick_name = 110 ∷ [];
  login = spectrum.Irc.State.Login.no_login;
  is_open = true;
  rooms = spectrum.Prelude.Int.ℤ.pos 1;
  pms = [];
  whois = [];
  commands = [];
}

abbrev with_session : Plugin
with_session = record start { sessions = (117 ∷ 104 ∷ [], some a_session) ∷ [] }

handle_message_send_request-none_example :
    is_none (handle_message_send_request (117 ∷ []) room slash_me with_session) ≡ true
unfolding text_beq look_up look_up_found name_of session_name lookup before after find_from
handle_message_send_request-none_example =
    handle_message_send_request-none (117 ∷ []) room slash_me a_session with_session refl

-- ===== src/Irc/Requests.antt =====
-- The requests of the server (backends/libcommuni/ircnetworkplugin.cpp). `none` is an exception that
-- nobody catches: substr behind the end of a message.
use spectrum.Prelude.{
  ℕ, zero, suc, ◌+◌, ◌-◌, ◌%◌, Bool, true, false, not, ◌&&◌, ◌||◌, List, [], ◌∷◌, ◌++◌, Option,
  none, some, Text, nat_eq, text_eq, ◌==◌, if◌then◌else◌, is_empty, length,
}
use spectrum.Prelude.Int.{ℤ, pos, negsuc, ◌+ℤ◌}
use spectrum.Prelude.Maps.{lookup, insert, erase}
use spectrum.Irc.Text.{
  before, find_from, after, contains_char, session_name, target_name, message_lines, starts_with,
  substr, address,
}
use spectrum.Irc.State.{
  Command, message, action, topic, part, away, Login, no_login, password, identify, Session, Told,
  Plugin, tell, send_command,
}

-- boost::replace_all, with a pattern that is not empty; `skip` bytes belong to the last match.
unfoldable pub replace_from : Text → Text → ℕ → Text → Text
replace_from pattern by skip [] = []
replace_from pattern by (suc skip) (c ∷ s) = replace_from pattern by skip s
replace_from pattern by zero (c ∷ s) = elim (starts_with pattern (c ∷ s)) [
  | true ↦ by ++ replace_from pattern by (length pattern - 1) s
  | false ↦ c ∷ replace_from pattern by 0 s
]

-- "$password"
abbrev password_mark : Text
password_mark = 36 ∷ 112 ∷ 97 ∷ 115 ∷ 115 ∷ 119 ∷ 111 ∷ 114 ∷ 100 ∷ []

-- "$name"
abbrev name_mark : Text
name_mark = 36 ∷ 110 ∷ 97 ∷ 109 ∷ 101 ∷ []

unfoldable pub login_of : Text → Text → Plugin → Login
login_of nickname word s =
    if is_empty word
    then no_login
    else if s.send_pass
    then password word
    else identify
        (replace_from name_mark nickname 0 (replace_from password_mark word 0 s.identify_format))

unfoldable pub create_session : Text → Text → Text → Text → Text → Plugin → Session
create_session user hostname nickname word suffix s = record {
  user = user;
  suffix = suffix;
  address = address hostname;
  nick_name = nickname;
  login = login_of nickname word s;
  is_open = false;
  rooms = pos 0;
  pms = [];
  whois = [];
  commands = [];
}

-- `m_sessions[name]`: a name that is not there gets an entry.
unfoldable pub look_up_found : Text → Option (Option Session) → Plugin → Option Session × Plugin
look_up_found name none s = (none, record s { sessions = insert name none s.sessions })
look_up_found name (some session) s = (session, s)

unfoldable pub look_up : Text → Plugin → Option Session × Plugin
look_up name s = look_up_found name (lookup name s.sessions) s

unfoldable pub put : Text → Session → Plugin → Plugin
put name session s = record s { sessions = insert name (some session) s.sessions }

unfoldable pub close : Text → Session → Plugin → Plugin
close name session s = tell (Told.closed session) (record s { sessions = erase name s.sessions })

abbrev pub server_at : ℕ → List Text → Text
server_at i [] = []
server_at zero (h ∷ hs) = h
server_at (suc i) (h ∷ hs) = server_at i hs

unfoldable pub try_next_server : Plugin → Plugin
try_next_server s =
    if is_empty s.servers
    then s
    else record s { current_server = (s.current_server + 1) % length s.servers }

-- With a session that was found, or without.
unfoldable pub log_in_found : Text → Text → Text → Option Session → Plugin → Plugin
log_in_found user name word (some session) s = s
log_in_found user name word none s =
    put user
      (record (create_session user (server_at s.current_server s.servers) name word [] s) {
        is_open = true;
      })
      s

unfoldable pub handle_login_request : Text → Text → Text → Plugin → Plugin
handle_login_request user name word s =
    if is_empty s.servers
    then tell (Told.connected user) s
    else let found = look_up user s in log_in_found user name word found.0 found.1

unfoldable pub log_out_found : Text → Option Session → Plugin → Plugin
log_out_found user none s = s
log_out_found user (some session) s = close user session s

unfoldable pub handle_logout_request : Text → Plugin → Plugin
handle_logout_request user s = let found = look_up user s in log_out_found user found.0 found.1

unfoldable pub name_of : Text → Text → Plugin → Text
name_of user name s = session_name s.server_mode (not (is_empty s.servers)) user name

unfoldable pub add_pm : Text → Session → Session
add_pm name session =
    if contains_char 47 name
    then record session { pms = insert (target_name name) (before 64 name) session.pms }
    else session

unfoldable pub send_lines : Text → List Text → Session → Session
send_lines target [] session = session
send_lines target (line ∷ lines) session =
    send_lines target lines (send_command (message target line) session)

abbrev pub slash_me : Text
slash_me = 47 ∷ 109 ∷ 101 ∷ []

abbrev pub slash_whois : Text
slash_whois = 47 ∷ 119 ∷ 104 ∷ 111 ∷ 105 ∷ 115 ∷ []

abbrev pub dot_whois : Text
dot_whois = 46 ∷ 119 ∷ 104 ∷ 111 ∷ 105 ∷ 115 ∷ []

-- A message to a room comes back from the network only through the plugin.
unfoldable pub echo : Text → Text → Text → Session → Plugin → Plugin
echo user name body session s =
    if starts_with (35 ∷ []) (target_name name)
    then tell (Told.room_message user name body session.nick_name) s
    else s

abbrev pub on_text : {A B : Type 0} → Option A → (A → B) → Option B
on_text none f = none
on_text (some a) f = some (f a)

unfoldable pub send_whois : Text → Text → Session → Session
send_whois target to session =
    send_command (Command.whois to) (record session { whois = insert to target session.whois })

-- `key` is the session's name.
unfoldable pub send_found : Text → Text → Text → Text → Option Session → Plugin → Option Plugin
send_found key user name body none s = some s
send_found key user name body (some old) s =
    let session = add_pm name old in
    let target = target_name name in
    if starts_with slash_me body
    then on_text (substr 4 body) (λ text.
      let sent = send_command (action target text) session in
      echo user name body sent (put key sent s))
    else if starts_with slash_whois body || starts_with dot_whois body
    then on_text (substr 7 body) (λ to. put key (send_whois target to session) s)
    else on_text (message_lines (suc (length body)) body) (λ lines.
      let sent = send_lines target lines session in echo user name body sent (put key sent s))

unfoldable pub handle_message_send_request : Text → Text → Text → Plugin → Option Plugin
handle_message_send_request user name body s =
    let key = name_of user name s in
    let found = look_up key s in send_found key user name body found.0 found.1

-- Sends a command through a session, where there is one.
unfoldable pub command_found : Text → Command → Option Session → Plugin → Plugin
command_found key c none s = s
command_found key c (some session) s = put key (send_command c session) s

unfoldable pub handle_room_subject_changed_request : Text → Text → Text → Plugin → Plugin
handle_room_subject_changed_request user room body s =
    let key = name_of user room s in
    let found = look_up key s in command_found key (topic (target_name room) body) found.0 found.1

-- `room.substr(room.find("@"))`
abbrev suffix_of : Option Text → Text
suffix_of none = []
suffix_of (some t) = t

-- The session that a join goes through; a new one is opened after the command.
unfoldable pub join_session : Text → Text → Text → Option Session → Plugin → Option Session
join_session user room nickname (some session) s = some session
join_session user room nickname none s =
    if is_empty s.servers && contains_char 64 room
    then some
        (record (create_session user (after 64 room) nickname [] (suffix_of (find_from 64 room))
          s) { is_open = true })
    else none

-- A session has one nickname for all rooms.
unfoldable pub correct_nickname : Text → Text → Text → Session → Plugin → Plugin
correct_nickname user room nickname session s =
    if nickname == session.nick_name
    then s
    else tell (Told.participant_changed user nickname room session.nick_name)
        (tell (Told.nickname_changed user room session.nick_name) s)

unfoldable pub join_found : Text → Text → Text → Text → Text → Option Session → Plugin → Plugin
join_found key user room nickname word none s = s
join_found key user room nickname word (some old) s =
    let session : Session = record (send_command (Command.join (target_name room) word) old) {
      rooms = old.rooms +ℤ pos 1;
    } in
    correct_nickname user room nickname session (put key session s)

unfoldable pub handle_join_room_request : Text → Text → Text → Text → Plugin → Plugin
handle_join_room_request user room nickname word s =
    let key = name_of user room s in
    let found = look_up key s in
    join_found key user room nickname word (join_session user room nickname found.0 found.1) found.1

abbrev pub is_positive : ℤ → Bool
is_positive (pos zero) = false
is_positive (pos (suc n)) = true
is_positive (negsuc n) = false

unfoldable pub leave_found : Text → Text → Option Session → Plugin → Plugin
leave_found key room none s = s
leave_found key room (some old) s =
    let session : Session = record (send_command (part (target_name room)) old) {
      rooms = old.rooms +ℤ negsuc 0;
    } in
    if not (is_positive session.rooms) && is_empty s.servers
    then close key session s
    else put key session s

unfoldable pub handle_leave_room_request : Text → Text → Plugin → Plugin
handle_leave_room_request user room s =
    let key = name_of user room s in
    let found = look_up key s in leave_found key room found.0 found.1

-- "Away"
abbrev away_text : Text
away_text = 65 ∷ 119 ∷ 97 ∷ 121 ∷ []

unfoldable pub handle_status_change_request : Text → Bool → Text → Plugin → Plugin
handle_status_change_request user is_away text s =
    let found = look_up user s in
    command_found user (away (if is_away then (if is_empty text then away_text else text) else []))
      found.0 found.1

unfoldable pub handle_vcard_request : Text → Text → ℕ → Plugin → Plugin
handle_vcard_request user name id s = tell (Told.vcard user id name) s

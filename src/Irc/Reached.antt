-- ===== src/Irc/Reached.antt =====
-- Any sequence of requests to a plugin without a configured server, and the messages that end it.
use spectrum.Prelude.{
  ℕ, ◌≡◌, Bool, true, [], Option, none, some, Text, text_eq, is_empty, sym, subst,
}
use spectrum.Irc.State.{Plugin}
use spectrum.Irc.Requests.{
  handle_login_request, handle_logout_request, handle_message_send_request,
  handle_room_subject_changed_request, handle_join_room_request, handle_leave_room_request,
  handle_status_change_request, handle_vcard_request, try_next_server, name_of,
}
use spectrum.Irc.Gateway.{
  AllLive, Inv, Survives, look_up-Live, tell-Inv, handle_login_request-Inv,
  handle_logout_request-Inv, command_found-Inv, handle_join_room_request-Inv,
  handle_leave_room_request-Inv, send_found-Survives,
}

handle_room_subject_changed_request-Inv :
    (user room body : Text) (s : Plugin)
    → Inv s
    → Inv (handle_room_subject_changed_request user room body s)
unfolding handle_room_subject_changed_request
handle_room_subject_changed_request-Inv user room body s i =
    let r = look_up-Live (name_of user room s) s i in command_found-Inv _ _ _ _ r.0 r.1

handle_status_change_request-Inv :
    (user : Text) (is_away : Bool) (text : Text) (s : Plugin)
    → Inv s
    → Inv (handle_status_change_request user is_away text s)
unfolding handle_status_change_request
handle_status_change_request-Inv user is_away text s i =
    let r = look_up-Live user s i in command_found-Inv _ _ _ _ r.0 r.1

handle_vcard_request-Inv :
    (user name : Text) (id : ℕ) (s : Plugin) → Inv s → Inv (handle_vcard_request user name id s)
unfolding handle_vcard_request
handle_vcard_request-Inv user name id s i = tell-Inv _ s i

try_next_server-Inv : (s : Plugin) → Inv s → Inv (try_next_server s)
unfolding try_next_server
try_next_server-Inv s i = rw (i.gateway) i

handle_message_send_request-Survives :
    (user name body : Text) (s : Plugin)
    → Inv s
    → Survives (handle_message_send_request user name body s)
unfolding handle_message_send_request
handle_message_send_request-Survives user name body s i =
    let r = look_up-Live (name_of user name s) s i in
    send_found-Survives (name_of user name s) user name body _ _ r.0 r.1

-- One request that does not end in an exception.
pub data Step : Plugin → Plugin → Type 0 where
  login : (user name word : Text) (s : Plugin) → Step s (handle_login_request user name word s)
  logout : (user : Text) (s : Plugin) → Step s (handle_logout_request user s)
  send :
      (user name body : Text) {s t : Plugin}
      → handle_message_send_request user name body s ≡ some t
      → Step s t
  subject :
      (user room body : Text) (s : Plugin)
      → Step s (handle_room_subject_changed_request user room body s)
  join :
      (user room nickname word : Text) (s : Plugin)
      → Step s (handle_join_room_request user room nickname word s)
  leave : (user room : Text) (s : Plugin) → Step s (handle_leave_room_request user room s)
  status :
      (user : Text) (is_away : Bool) (text : Text) (s : Plugin)
      → Step s (handle_status_change_request user is_away text s)
  vcard : (user name : Text) (id : ℕ) (s : Plugin) → Step s (handle_vcard_request user name id s)
  next_server : (s : Plugin) → Step s (try_next_server s)

pub data Reach (s : Plugin) : Plugin → Type 0 where
  here : Reach s s
  next : {t u : Plugin} → Reach s t → Step t u → Reach s u

Survives-Inv : (o : Option Plugin) (t : Plugin) → o ≡ some t → Survives o → Inv t
Survives-Inv none t e h = cc
Survives-Inv (some s) t e h = (let same : s ≡ t = cc in subst Inv same h)

Step-Inv : {s t : Plugin} → Step s t → Inv s → Inv t
Step-Inv (login user name word s) i = handle_login_request-Inv user name word s i
Step-Inv (logout user s) i = handle_logout_request-Inv user s i
Step-Inv (send user name body {s} {t} e) i =
    Survives-Inv _ t e (handle_message_send_request-Survives user name body s i)
Step-Inv (subject user room body s) i = handle_room_subject_changed_request-Inv user room body s i
Step-Inv (join user room nickname word s) i =
    handle_join_room_request-Inv user room nickname word s i
Step-Inv (leave user room s) i = handle_leave_room_request-Inv user room s i
Step-Inv (status user is_away text s) i = handle_status_change_request-Inv user is_away text s i
Step-Inv (vcard user name id s) i = handle_vcard_request-Inv user name id s i
Step-Inv (next_server s) i = try_next_server-Inv s i

pub Reach-AllLive :
    (s t : Plugin) → is_empty s.servers ≡ true → s.sessions ≡ [] → Reach s t → AllLive t.sessions
Reach-AllLive s t e h r = (go r).live
  where
    go : {u : Plugin} → Reach s u → Inv u
    go here = record { gateway = e; live = subst AllLive (sym h) tt }
    go (next r st) = Step-Inv st (go r)

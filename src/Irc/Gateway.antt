-- ===== src/Irc/Gateway.antt =====
-- The plugin without a configured server: each user has a session for each server, as long as he is in
-- a room there.
use spectrum.Prelude.{
  zero, suc, ◌≡◌, refl, Bool, true, false, not, ◌&&◌, ◌||◌, List, [], ◌∷◌, Option, none, some, Text,
  text_eq, ◌==◌, if◌then◌else◌, is_empty, length, subst, arith, if_cases,
}
use spectrum.Prelude.Int.{ℤ, pos, negsuc, ◌+ℤ◌}
use spectrum.Prelude.Maps.{Map, lookup, insert, erase}
use spectrum.Irc.Text.{message_lines, starts_with, substr, target_name}
use spectrum.Irc.State.{Command, Session, Told, Plugin, tell, send_command}
use spectrum.Irc.Requests.{
  look_up_found, look_up, put, close, create_session, handle_login_request, log_out_found,
  handle_logout_request, name_of, add_pm, send_lines, send_whois, echo, send_found, command_found,
  join_session, correct_nickname, join_found, handle_join_room_request, is_positive, leave_found,
  handle_leave_room_request, on_text, slash_me, slash_whois, dot_whois,
}

-- A session is open and in a room.
abbrev pub Live : Option Session → Type 0
Live none = Unit
Live (some session) = (is_positive session.rooms ≡ true) × (session.is_open ≡ true)

abbrev pub AllLive : Map Text (Option Session) → Type 0
AllLive [] = Unit
AllLive ((name, found) ∷ rest) = Live found × AllLive rest

insert-AllLive :
    (name : Text) (found : Option Session) (m : Map Text (Option Session))
    → Live found
    → AllLive m
    → AllLive (insert name found m)
unfolding insert
insert-AllLive name found [] l a = (l, tt)
insert-AllLive name found ((at, old) ∷ rest) l a =
    go (at == name) (insert-AllLive name found rest l a.1)
  where
    go :
        (b : Bool)
        → AllLive (insert name found rest)
        → AllLive (if b then (name, found) ∷ rest else (at, old) ∷ insert name found rest)
    go true r = (l, a.1)
    go false r = (a.0, r)

erase-AllLive : (name : Text) (m : Map Text (Option Session)) → AllLive m → AllLive (erase name m)
unfolding erase
erase-AllLive name [] a = tt
erase-AllLive name ((at, old) ∷ rest) a = go (at == name) (erase-AllLive name rest a.1)
  where
    go :
        (b : Bool)
        → AllLive (erase name rest)
        → AllLive (if b then erase name rest else (at, old) ∷ erase name rest)
    go true r = r
    go false r = (a.0, r)

lookup-Live :
    (name : Text) (m : Map Text (Option Session)) (found : Option Session)
    → AllLive m
    → lookup name m ≡ some found
    → Live found
unfolding lookup
lookup-Live name [] found a h = cc
lookup-Live name ((at, old) ∷ rest) found a h =
    go (at == name) (λ e. lookup-Live name rest found a.1 e) h
  where
    go :
        (b : Bool)
        → (lookup name rest ≡ some found → Live found)
        → (if b then some old else lookup name rest) ≡ some found
        → Live found
    go true next e = (let same : old ≡ found = cc in subst Live same a.0)
    go false next e = next e

-- No server is configured, and every session is open and in a room.
pub record Inv (s : Plugin) : Type 0 where
  pub gateway : is_empty s.servers ≡ true
  pub live : AllLive s.sessions

look_up_found-Live :
    (name : Text) (found : Option (Option Session)) (s : Plugin)
    → lookup name s.sessions ≡ found
    → Inv s
    → Live (look_up_found name found s).0 × Inv (look_up_found name found s).1
unfolding look_up_found
look_up_found-Live name none s e i =
    (tt, record { gateway = i.gateway; live = insert-AllLive name none s.sessions tt i.live })
look_up_found-Live name (some found) s e i = (lookup-Live name s.sessions found i.live e, i)

pub look_up-Live :
    (name : Text) (s : Plugin) → Inv s → Live (look_up name s).0 × Inv (look_up name s).1
unfolding look_up
look_up-Live name s i = look_up_found-Live name (lookup name s.sessions) s refl i

put-Inv :
    (name : Text) (session : Session) (s : Plugin)
    → Live (some session)
    → Inv s
    → Inv (put name session s)
unfolding put
put-Inv name session s l i = record {
  gateway = i.gateway;
  live = insert-AllLive name (some session) s.sessions l i.live;
}

pub tell-Inv : (x : Told) (s : Plugin) → Inv s → Inv (tell x s)
tell-Inv x s i = record { gateway = i.gateway; live = i.live }

close-Inv : (name : Text) (session : Session) (s : Plugin) → Inv s → Inv (close name session s)
unfolding close
close-Inv name session s i = record {
  gateway = i.gateway;
  live = erase-AllLive name s.sessions i.live;
}

pub handle_login_request-Inv :
    (user name word : Text) (s : Plugin) → Inv s → Inv (handle_login_request user name word s)
unfolding handle_login_request
handle_login_request-Inv user name word s i = rw (i.gateway) (tell-Inv (Told.connected user) s i)

log_out_found-Inv :
    (user : Text) (found : Option Session) (s : Plugin) → Inv s → Inv (log_out_found user found s)
unfolding log_out_found
log_out_found-Inv user none s i = i
log_out_found-Inv user (some session) s i = close-Inv user session s i

pub handle_logout_request-Inv :
    (user : Text) (s : Plugin) → Inv s → Inv (handle_logout_request user s)
unfolding handle_logout_request
handle_logout_request-Inv user s i = log_out_found-Inv user _ _ (look_up-Live user s i).1

pub command_found-Inv :
    (key : Text) (c : Command) (found : Option Session) (s : Plugin)
    → Live found
    → Inv s
    → Inv (command_found key c found s)
unfolding command_found
command_found-Inv key c none s l i = i
command_found-Inv key c (some session) s l i = put-Inv key (send_command c session) s l i

-- A join raises the number of rooms from none or more.
abbrev Joining : Option Session → Type 0
Joining none = Unit
Joining (some session) = (is_positive (session.rooms +ℤ pos 1) ≡ true) × (session.is_open ≡ true)

is_positive-up : (z : ℤ) → is_positive z ≡ true → is_positive (z +ℤ pos 1) ≡ true
unfolding ◌+ℤ◌
is_positive-up (pos zero) h = cc
is_positive-up (pos (suc n)) h = ground arith
is_positive-up (negsuc n) h = cc

join_session-Joining :
    (user room nickname : Text) (found : Option Session) (s : Plugin)
    → Live found
    → Joining (join_session user room nickname found s)
unfolding join_session create_session ◌+ℤ◌
join_session-Joining user room nickname none s l = ground arith
join_session-Joining user room nickname (some old) s l = (is_positive-up old.rooms l.0, l.1)

correct_nickname-Inv :
    (user room nickname : Text) (session : Session) (s : Plugin)
    → Inv s
    → Inv (correct_nickname user room nickname session s)
unfolding correct_nickname
correct_nickname-Inv user room nickname session s i =
    if_cases Inv (nickname == session.nick_name) s _ (λ h. i) (λ h. tell-Inv _ _ (tell-Inv _ s i))

join_found-Inv :
    (key user room nickname word : Text) (found : Option Session) (s : Plugin)
    → Joining found
    → Inv s
    → Inv (join_found key user room nickname word found s)
unfolding join_found
join_found-Inv key user room nickname word none s l i = i
join_found-Inv key user room nickname word (some old) s l i =
    correct_nickname-Inv user room nickname _ _ (put-Inv key _ s l i)

pub handle_join_room_request-Inv :
    (user room nickname word : Text) (s : Plugin)
    → Inv s
    → Inv (handle_join_room_request user room nickname word s)
unfolding handle_join_room_request
handle_join_room_request-Inv user room nickname word s i =
    let r = look_up-Live (name_of user room s) s i in
    join_found-Inv (name_of user room s) user room nickname word _ _
      (join_session-Joining user room nickname _ _ r.0) r.1

leave_found-Inv :
    (key room : Text) (found : Option Session) (s : Plugin)
    → Live found
    → Inv s
    → Inv (leave_found key room found s)
unfolding leave_found
leave_found-Inv key room none s l i = i
leave_found-Inv key room (some old) s l i =
    let session : Session = record (send_command (Command.part (target_name room)) old) {
      rooms = old.rooms +ℤ negsuc 0;
    } in
    if_cases Inv (not (is_positive session.rooms) && is_empty s.servers) _ _
      (λ h. close-Inv key session s i)
      (λ h. put-Inv key session s (ground (arith, i.gateway, l.1), l.1) i)

pub handle_leave_room_request-Inv :
    (user room : Text) (s : Plugin) → Inv s → Inv (handle_leave_room_request user room s)
unfolding handle_leave_room_request
handle_leave_room_request-Inv user room s i =
    let r = look_up-Live (name_of user room s) s i in
    leave_found-Inv (name_of user room s) room _ _ r.0 r.1

-- What a message does to the session that it goes through.
send_lines-Live :
    (target : Text) (lines : List Text) (session : Session)
    → Live (some session)
    → Live (some (send_lines target lines session))
unfolding send_lines
send_lines-Live target [] session l = l
send_lines-Live target (line ∷ lines) session l =
    send_lines-Live target lines (send_command (Command.message target line) session) l

add_pm-Live :
    (name : Text) (session : Session) → Live (some session) → Live (some (add_pm name session))
unfolding add_pm
add_pm-Live name session l = if_cases (λ x. Live (some x)) _ _ session (λ h. l) (λ h. l)

echo-Inv :
    (user name body : Text) (session : Session) (s : Plugin)
    → Inv s
    → Inv (echo user name body session s)
unfolding echo
echo-Inv user name body session s i =
    if_cases Inv (starts_with (35 ∷ []) (target_name name)) _ s
      (λ h. tell-Inv (Told.room_message user name body session.nick_name) s i) (λ h. i)

-- Where the request does not end in an exception.
abbrev pub Survives : Option Plugin → Type 0
Survives none = Unit
Survives (some s) = Inv s

on_text-Survives :
    {A : Type 0} (a : Option A) (f : A → Plugin) → ((x : A) → Inv (f x)) → Survives (on_text a f)
on_text-Survives none f h = tt
on_text-Survives (some x) f h = h x

pub send_found-Survives :
    (key user name body : Text) (found : Option Session) (s : Plugin)
    → Live found
    → Inv s
    → Survives (send_found key user name body found s)
unfolding send_found
send_found-Survives key user name body none s l i = i
send_found-Survives key user name body (some old) s l i =
    let session = add_pm name old in
    let kept = add_pm-Live name old l in
    if_cases Survives (starts_with slash_me body) _ _
      (λ h. on_text-Survives (substr 4 body) _ (λ text.
        echo-Inv user name body _ _
          (put-Inv key (send_command (Command.action (target_name name) text) session) s kept i)))
      (λ h.
        if_cases Survives (starts_with slash_whois body || starts_with dot_whois body) _ _
          (λ k. on_text-Survives (substr 7 body) _ (λ to.
            put-Inv key (send_whois (target_name name) to session) s (unfold send_whois in kept) i))
          (λ k. on_text-Survives (message_lines (suc (length body)) body) _ (λ lines.
            echo-Inv user name body _ _ (
              put-Inv key (send_lines (target_name name) lines session) s
                (send_lines-Live (target_name name) lines session kept) i))))

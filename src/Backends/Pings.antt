-- ===== src/Backends/Pings.antt =====
-- The server's timers (libtransport/NetworkPluginServer.cpp): pingTimeout, the move of idle users to
-- long-running backends, and collectBackend.
pub mod Idle
pub mod Twice
use spectrum.Prelude.{
  ℕ, zero, suc, ◌+◌, ◌-◌, Bool, true, false, not, ◌&&◌, ◌||◌, List, [], ◌∷◌, ◌++◌, Option, none,
  some, nat_eq, ◌==◌, ltb, leb, if◌then◌else◌, length, is_empty,
}
use spectrum.Prelude.Members.{remove}
use spectrum.Backends.Defs.{Pong, waiting, Backend, User, Server, set_backend, set_user}
use spectrum.Backends.{get_free_client, attach, handle_user_ready_to_connect}
use spectrum.Backends.Lifecycle.{send_ping, handle_session_finished}

-- `old->users.remove(user)`
pub leave : ℕ → ℕ → Server → Server
leave u a s = set_backend a (record (s.backend a) { users = remove u (s.backend a).users }) s

-- `user->setIgnoreDisconnect(true)`
pub ignore : ℕ → Server → Server
ignore u s = set_user u (record (s.user u) { ignore_disconnect = true }) s

move_to : ℕ → ℕ → Option ℕ → Server → Server × Bool
move_to u old none s = (s, false)
move_to u old (some b) s =
    (handle_user_ready_to_connect u (attach u b (leave u old (ignore u s))), true)

-- False: no long-running backend is free, so that the next users need not be tried.
pub move_to_long_run_backend : ℕ → ℕ → ℕ → Server → Server × Bool
move_to_long_run_backend now pid u s = elim (s.user u).backend [
  | none ↦ (s, true)
  | some old ↦
      if (s.backend old).long_run
      then (s, true)
      else let (s', c) = get_free_client false true false now pid s in move_to u old c s'
]

-- The users of one backend that were idle for too long.
idle_users : ℕ → List ℕ → Server → List ℕ
idle_users now [] s = []
idle_users now (u ∷ us) s =
    let rest = idle_users now us s in
    if ltb s.idle_reconnect_time (now - (s.user u).last_activity) then u ∷ rest else rest

users_to_move : ℕ → List ℕ → Server → List ℕ
users_to_move now [] s = []
users_to_move now (a ∷ rest) s =
    let more = users_to_move now rest s in
    if (s.backend a).long_run then more else idle_users now (s.backend a).users s ++ more

move_users : ℕ → ℕ → List ℕ → Server → Server
move_users now pid [] s = s
move_users now pid (u ∷ us) s =
    let (s', more) = move_to_long_run_backend now pid u s in
    let rest = move_users now pid us s' in if more then rest else s'

pub move_idle_users : ℕ → ℕ → Server → Server
move_idle_users now pid s =
    if s.idle_reconnect_time == 0 then s else move_users now pid (users_to_move now s.clients s) s

abbrev is_waiting : Pong → Bool
is_waiting waiting = true
is_waiting _ = false

-- The loop over the backends: a PING to each, or an entry of `toRemove`; an empty one enters it too.
pub check_pings : List ℕ → Server → Server × List ℕ
check_pings [] s = (s, [])
check_pings (a ∷ rest) s =
    if is_waiting (s.backend a).pong_received
    then (let (t, gone) = check_pings rest s in (t, a ∷ if_empty gone))
    else (let (t, gone) = check_pings rest (send_ping a s) in (t, if_empty gone))
  where
    if_empty : List ℕ → List ℕ
    if_empty gone = if is_empty (s.backend a).users then a ∷ gone else gone

pub finish_sessions : ℕ → ℕ → List ℕ → Server → Option Server
finish_sessions now pid [] s = some s
finish_sessions now pid (a ∷ rest) s = elim (handle_session_finished now pid a s) [
  | none ↦ none
  | some t ↦ finish_sessions now pid rest t
]

pub ping_timeout : ℕ → ℕ → Server → Option Server
ping_timeout now pid s =
    let (t, gone) =
      check_pings s.clients (record (move_idle_users now pid s) { starting_backend = false }) in
    finish_sessions now pid gone t

-- The first of the backends with the most memory above `max`.
pub biggest : ℕ → Option ℕ → List ℕ → Server → Option ℕ
biggest max b [] s = b
biggest max b (a ∷ rest) s =
    let m = ltb max (s.backend a).res in
    biggest (if m then (s.backend a).res else max) (if m then some a else b) rest s

unfoldable pub collect_backend : Server → Server
collect_backend s = elim (biggest 0 none s.clients s) [
  | none ↦ s
  | some a ↦ set_backend a (record (s.backend a) { accept_users = false }) s
]

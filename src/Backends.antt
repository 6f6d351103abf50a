-- ===== src/Backends.antt =====
-- NetworkPluginServer (libtransport/NetworkPluginServer.cpp): which backend serves which user. A
-- `Backend *` and a `User *` are addresses into two heaps; a backend is allocated as long as it
-- stands in `clients`. Times and process ids are arguments; configuration values are not negative.
mod Defs
pub mod Places
pub mod Search
pub mod Moves
pub mod Arrival
pub mod Lifecycle
pub mod Without
pub mod Drops
pub mod Session
pub mod Pings
pub mod Waiting
pub mod Stale
pub mod Connect
pub mod Reached
mod Tests
unfoldable pub use Defs.*
use spectrum.Prelude.{
  ℕ, zero, suc, ◌+◌, ◌-◌, Bool, true, false, not, ◌&&◌, ◌||◌, List, [], ◌∷◌, ◌++◌, Option, none,
  some, nat_eq, ◌==◌, ltb, leb, if◌then◌else◌, length, is_empty,
}
use spectrum.Prelude.Members.{contains, remove}

-- Whether a backend can take a user: the condition in the loop of `getFreeClient`.
pub suits : Server → Bool → Bool → ℕ → Bool
suits s accept long a =
    not will_die
    && same_bool accept_users accept
    && ltb (length users) s.users_per_backend
    && connection
    && same_bool long_run long
  where
    b : Backend
    b = s.backend a

    open b use {will_die, accept_users, users, connection, long_run}

pub find_client : (ℕ → Bool) → List ℕ → Option ℕ
find_client p [] = none
find_client p (a ∷ rest) = if p a then some a else find_client p rest

-- A full backend takes no new users later, where old backends are not reused.
pub close_if_full : Bool → ℕ → Server → Server
close_if_full check a s =
    if not s.reuse_old_backends
      && (not check && leb s.users_per_backend (length (s.backend a).users + 1))
    then set_backend a (record (s.backend a) { accept_users = false }) s
    else s

-- A new backend process, unless one is being started already.
pub spawn : Bool → ℕ → Server → Server
spawn long pid s =
    if s.starting_backend
    then s
    else record s { is_next_long_run = long; starting_backend = true; pids = record_pid pid s.pids }

choose : Bool → Bool → ℕ → Option ℕ → Server → Server × Option ℕ
choose long check pid none s = (spawn long pid s, none)
choose long check pid (some a) s = (close_if_full check a s, some a)

-- `getFreeClient(acceptUsers, longRun, check)` at a time, with the id of a process it may start.
pub get_free_client : Bool → Bool → Bool → ℕ → ℕ → Server → Server × Option ℕ
unfolding choose
get_free_client accept long check now pid s =
    if ltb 0 s.login_delay && ltb (now - s.last_login) s.login_delay
    then (record s { login_timer_runs = true }, none)
    else let s' = if check then s else record s { last_login = now } in
      choose long check pid (find_client (suits s' accept long) s'.clients) s'

-- `user->setData(c); c->users.push_back(user);`
pub attach : ℕ → ℕ → Server → Server
attach u a s =
    set_backend a (record (s.backend a) { users = (s.backend a).users ++ u ∷ [] })
      (set_user u (record (s.user u) { backend = some a }) s)

place_user : ℕ → Option ℕ → Server → Server
place_user u none s = record s { waiting_users = s.waiting_users ++ u ∷ [] }
place_user u (some a) s = listen true u (attach u a s)

pub handle_user_created : ℕ → ℕ → ℕ → Server → Server
unfolding place_user
handle_user_created now pid u s =
    let (s', c) = get_free_client true false false now pid s in place_user u c s'

-- The login goes to the user's backend, if he has one, and his roster after it where this is wanted.
pub handle_user_ready_to_connect : ℕ → Server → Server
handle_user_ready_to_connect u s = elim (s.user u).backend [
  | none ↦ s
  | some a ↦
      let s' = send_to a (Order.login u) s in
      if s.send_buddies_on_login then send_to a (Order.roster u) s' else s'
]

-- `c->users.remove(user)`, and the end of a backend that serves one user only.
pub detach : ℕ → ℕ → Server → Server
detach u a s =
    set_backend a
      (record (s.backend a) {
        users = left;
        will_die =
            if is_empty left && s.users_per_backend == 1 then true else (s.backend a).will_die;
      })
      s
  where
    left : List ℕ
    left = remove u (s.backend a).users

pub handle_user_destroyed : ℕ → Server → Server
handle_user_destroyed u s =
    let s' = listen false u (record s { waiting_users = remove u s.waiting_users }) in
    elim (s.user u).backend [ none ↦ s' | some a ↦ detach u a (send_to a (Order.logout u) s') ]

-- `if (u->isReadyToConnect()) handleUserReadyToConnect(u);`
connect_if_ready : ℕ → Server → Server
connect_if_ready u s = if (s.user u).ready_for_connect then handle_user_ready_to_connect u s else s

-- The loop of `connectWaitingUsers`, with fuel.
pub connect_loop : ℕ → ℕ → ℕ → Server → Server
connect_loop zero now pid s = s
connect_loop (suc fuel) now pid s = elim s.waiting_users [
  | [] ↦ s
  | u ∷ rest ↦
      let (s', c) = get_free_client true false true now pid s in
      elim c [
        | none ↦ s'
        | some a ↦ connect_loop fuel now pid (
            connect_if_ready u (handle_user_created now pid u (record s' { waiting_users = rest })))
      ]
]

pub connect_waiting_users : ℕ → ℕ → Server → Server
connect_waiting_users now pid s = connect_loop (length s.waiting_users) now pid s

pub login_delay_finished : ℕ → ℕ → Server → Server
login_delay_finished now pid s =
    connect_waiting_users now pid (record s { login_timer_runs = false })

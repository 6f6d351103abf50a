-- ===== src/Backends/Lifecycle.antt =====
-- A backend's life in NetworkPluginServer: connection, PING and PONG, the end of its session, and
-- User::handleDisconnected (libtransport/User.cpp), which the end of a session calls for each user.
use spectrum.Prelude.{
  ℕ, ◌+◌, Bool, true, false, not, ◌&&◌, List, [], ◌∷◌, ◌++◌, Option, none, some, nat_eq, ltb,
  if◌then◌else◌, is_empty,
}
use spectrum.Prelude.Int.{ℤ, pos, negsuc}
use spectrum.Prelude.Members.{contains, remove}
use spectrum.Backends.Defs.{
  Pong, first_ping, waiting, received, Backend, User, Order, Server, set_backend, set_user, send_to,
}
use spectrum.Backends.{
  handle_user_created, handle_user_ready_to_connect, handle_user_destroyed, connect_waiting_users,
}

-- SpectrumErrorPayload::Error, with the errors that are never retried in one.
pub data ConnectionError : Type 0 where
  other_error network_error refused : ConnectionError

abbrev pub is_retried : ConnectionError → Bool
is_retried other_error = true
is_retried network_error = true
is_retried refused = false

-- `m_reconnectLimit < 0 || m_reconnectCounter < m_reconnectLimit`
abbrev pub below_limit : ℕ → ℤ → Bool
below_limit n (negsuc k) = true
below_limit n (pos k) = ltb n k

-- The user is to be connected again, and not given up.
unfoldable pub reconnects : User → ConnectionError → Bool
reconnects u e = is_retried e && below_limit u.reconnect_counter u.reconnect_limit

-- The user's signal `onReadyToConnect`.
unfoldable pub on_ready_to_connect : ℕ → Server → Server
on_ready_to_connect u s = if (s.user u).listening then handle_user_ready_to_connect u s else s

-- `onUserDestroyed(this); onUserCreated(this); onReadyToConnect();`
unfoldable pub reconnect_user : ℕ → ℕ → ℕ → Server → Server
reconnect_user now pid u s = on_ready_to_connect u (
    handle_user_created now pid u (
      handle_user_destroyed u (
        set_user u (record (s.user u) { reconnect_counter = (s.user u).reconnect_counter + 1 }) s)))

-- User::handleDisconnected. A user who is given up leaves through `onUserDestroyed`.
unfoldable pub handle_disconnected : ConnectionError → ℕ → ℕ → ℕ → Server → Server
handle_disconnected e now pid u s =
    if (s.user u).ignore_disconnect
    then s
    else if reconnects (s.user u) e
    then reconnect_user now pid u s
    else handle_user_destroyed u s

-- User::setConnected, as far as the server's state goes.
unfoldable pub set_connected : Bool → ℕ → ℕ → Server → Server
set_connected b now u s =
    set_user u
      (record (s.user u) {
        connected = b;
        reconnect_counter = 0;
        ignore_disconnect = false;
        last_activity = now;
      })
      s

unfoldable pub send_ping : ℕ → Server → Server
send_ping a s =
    if (s.backend a).connection
    then set_backend a (record (s.backend a) { pong_received = waiting }) (send_to a Order.ping s)
    else s

-- `a` is the address of the new Backend.
unfoldable pub handle_new_client_connection : ℕ → Server → Server
unfolding send_ping
handle_new_client_connection a s =
    let s' =
      send_ping a
        (set_backend a client (record s { starting_backend = false; clients = a ∷ s.clients })) in
    set_backend a (record (s'.backend a) { pong_received = first_ping }) s'
  where
    client : Backend
    client = record {
      pong_received = first_ping;
      users = [];
      connection = true;
      res = 0;
      accept_users = not s.is_next_long_run;
      long_run = s.is_next_long_run;
      will_die = true;
      id = [];
    }

abbrev is_first : Pong → Bool
is_first first_ping = true
is_first _ = false

unfoldable pub handle_pong_received : ℕ → ℕ → ℕ → Server → Server
handle_pong_received now pid a s =
    set_backend a (record (s'.backend a) { pong_received = received }) s'
  where
    ready : Server
    ready = record (set_backend a (record (s.backend a) { will_die = false }) s) {
      first_pong = false;
      started = if s.first_pong then true else s.started;
    }

    s' : Server
    s' = if is_first (s.backend a).pong_received then connect_waiting_users now pid ready else s

-- The loop over the users of a backend whose session ended.
unfoldable pub drop_users : ℕ → ℕ → List ℕ → Server → Server
drop_users now pid [] s = s
drop_users now pid (u ∷ us) s = drop_users now pid us (
    handle_disconnected other_error now pid u (set_user u (record (s.user u) { backend = none }) s))

-- `willDie`, and the id of a backend that still had users.
unfoldable pub mark_dead : ℕ → Server → Server
mark_dead a s = record (set_backend a (record (s.backend a) { will_die = true }) s) {
  crashed_backends =
      if is_empty (s.backend a).users
      then s.crashed_backends
      else s.crashed_backends ++ (s.backend a).id ∷ [];
}

-- The exit message, and the end of the connection and of the Backend.
unfoldable pub drop_backend : ℕ → Server → Server
drop_backend a s = record (send_to a Order.exit s) { clients = remove a s.clients }

-- The backend is deleted at the end, so a second call with its address is a use of freed memory.
unfoldable pub handle_session_finished : ℕ → ℕ → ℕ → Server → Option Server
handle_session_finished now pid a s =
    if contains a s.clients
    then some (drop_backend a (drop_users now pid (s.backend a).users (mark_dead a s)))
    else none

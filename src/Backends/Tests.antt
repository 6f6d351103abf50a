-- ===== src/Backends/Tests.antt =====
-- Two backends, of which one is long-running, with two users each at most; the user 7 arrives first.
use spectrum.Prelude.{
  ℕ, ◌+◌, ◌≤◌, ◌≡◌, refl, true, false, List, [], ◌∷◌, none, some, arith, nat_eq, ◌==◌,
  if◌then◌else◌,
}
use spectrum.Prelude.Int.{pos}
use spectrum.Prelude.Members.{contains, count}
use spectrum.Backends.Defs.{Server, Backend, User, Config, waiting, received}
use spectrum.Backends.Places.{places, total, Inv}
use spectrum.Backends.{
  detach, get_free_client, suits, find_client, choose, close_if_full, spawn, place_user, attach,
  handle_user_created, handle_user_destroyed, connect_waiting_users,
}
use spectrum.Backends.Arrival.{places-handle_user_created, handle_user_created-Inv}
use spectrum.Backends.Reached.{Step, History, History-Inv}
use spectrum.Backends.Drops.{settled, survives}
use spectrum.Backends.Session.{handle_session_finished-settled}
use spectrum.Backends.Lifecycle.{handle_session_finished, handle_new_client_connection, reconnects}
use spectrum.Backends.Waiting.{Settled, connect_waiting_users-settles}
use spectrum.Backends.Pings.{ping_timeout}
use spectrum.Backends.Pings.Idle.{Hosted}
use spectrum.Backends.Pings.Twice.{ping_timeout-twice}
use spectrum.Backends.Stale.{stale_backend}

abbrev backend_at : ℕ → Backend
backend_at a = record {
  pong_received = if a == 3 then waiting else received;
  users = [];
  connection = true;
  res = 0;
  accept_users = if a == 2 then false else true;
  long_run = if a == 2 then true else false;
  will_die = false;
  id = [];
}

abbrev offline : User
offline = record {
  backend = none;
  listening = false;
  connected = false;
  ready_for_connect = true;
  ignore_disconnect = false;
  reconnect_counter = 0;
  reconnect_limit = pos 3;
  last_activity = 0;
}

abbrev settings : Config
settings = record {
  users_per_backend = 2;
  login_delay = 0;
  idle_reconnect_time = 0;
  reuse_old_backends = true;
  send_buddies_on_login = true;
}

abbrev server_with : List ℕ → Server
server_with clients = record {
  config = settings;
  clients = clients;
  waiting_users = [];
  is_next_long_run = false;
  starting_backend = false;
  first_pong = false;
  started = true;
  last_login = 0;
  login_timer_runs = false;
  pids = [];
  crashed_backends = [];
  backend = backend_at;
  user = λ u. offline;
  sent = [];
}

abbrev empty_server : Server
empty_server = server_with (2 ∷ 1 ∷ [])

empty_server-Inv : Inv empty_server
unfolding places total
empty_server-Inv = record {
  distinct = λ a. ground arith;
  once = λ u. ground arith;
  assigned = λ a u p q. absurd (omega arith);
  sizes = λ a p. ground arith;
}

nobody_there : places 7 empty_server ≡ 0
unfolding places total
nobody_there = refl

abbrev one_user : Server
one_user = handle_user_created 10 100 7 empty_server

one_user-Inv : Inv one_user
one_user-Inv = handle_user_created-Inv 10 100 7 empty_server empty_server-Inv nobody_there

abbrev queued : Server
queued = handle_user_created 10 100 7 (server_with [])

queued_users : queued.waiting_users ≡ 7 ∷ []
unfolding handle_user_created get_free_client choose close_if_full spawn place_user find_client
queued_users = refl

users_of_1 : (one_user.backend 1).users ≡ 7 ∷ []
unfolding handle_user_created get_free_client choose close_if_full spawn place_user attach suits
    find_client
users_of_1 = refl

clients_of_one_user : one_user.clients ≡ 2 ∷ 1 ∷ []
unfolding handle_user_created get_free_client choose close_if_full spawn place_user attach suits
    find_client
clients_of_one_user = refl

backend_of_7 : (one_user.user 7).backend ≡ some 1
unfolding handle_user_created get_free_client choose close_if_full spawn place_user attach suits
    find_client
backend_of_7 = refl

places-handle_user_created_example :
    places 7 (handle_user_created 10 100 7 empty_server) ≡ places 7 empty_server + 1
places-handle_user_created_example =
    places-handle_user_created 10 100 7 empty_server empty_server-Inv 7

listed_1 : contains 1 one_user.clients ≡ true
listed_1 = rw clients_of_one_user refl

handle_session_finished-settled_example :
    (t : Server) × (handle_session_finished 20 101 1 one_user ≡ some t)
    × Inv t
    × ((w : ℕ) → places w t ≡ settled (one_user.backend 1).users one_user w)
    × (handle_session_finished 20 101 1 t ≡ none)
handle_session_finished-settled_example =
    handle_session_finished-settled 20 101 1 one_user one_user-Inv listed_1

survives_7 : survives (one_user.user 7) ≡ true
unfolding handle_user_created get_free_client choose close_if_full spawn place_user attach suits
    find_client survives reconnects
survives_7 = refl

connect_waiting_users-settles_example :
    Inv (connect_waiting_users 20 101 one_user)
    × ((w : ℕ) → places w (connect_waiting_users 20 101 one_user) ≡ places w one_user)
    × Settled 20 101 (connect_waiting_users 20 101 one_user)
connect_waiting_users-settles_example = connect_waiting_users-settles 20 101 one_user one_user-Inv

hosted_1 :
    (a : ℕ) → 1 ≡ a → (1 ≤ count a one_user.clients) × (1 ≤ count 7 (one_user.backend a).users)
hosted_1 a e = rw⁻¹ e (rw (clients_of_one_user, users_of_1) (omega arith, omega arith))

one_user-Hosted : Hosted 7 one_user
unfolding Hosted
one_user-Hosted a e = hosted_1 a (cc (e, backend_of_7))

ping_timeout-twice_example : ping_timeout 20 101 (server_with (3 ∷ 1 ∷ [])) ≡ none
ping_timeout-twice_example =
    ping_timeout-twice 20 101 3 (server_with (3 ∷ 1 ∷ [])) refl refl refl refl

-- The login delay postpones a login at the time of the last one.
abbrev delayed : Server
delayed = record one_user { config = record settings { login_delay = 5 } }

backend_of_delayed : (delayed.user 7).backend ≡ some 1
backend_of_delayed = backend_of_7

none_free : (get_free_client true false false 11 101 (handle_user_destroyed 7 delayed)).1 ≡ none
unfolding handle_user_created get_free_client choose close_if_full spawn place_user attach suits
    find_client handle_user_destroyed detach
none_free = refl

stale_backend_example :
    (((handle_user_created 11 101 7 (handle_user_destroyed 7 delayed)).user 7).backend ≡ some 1)
    × (1 ≤ count 7 (handle_user_created 11 101 7 (handle_user_destroyed 7 delayed)).waiting_users)
    × (count 7 ((handle_user_created 11 101 7 (handle_user_destroyed 7 delayed)).backend 1).users
        ≡ 0)
stale_backend_example = stale_backend 11 101 7 1 delayed backend_of_delayed none_free

abbrev three_backends : Server
three_backends = handle_new_client_connection 3 empty_server

-- User 7 waits when backend 1 connects, and leaves.
nobody_yet : places 7 (server_with []) ≡ 0
unfolding places total
nobody_yet = refl

none_listed : count 1 queued.clients ≡ 0
unfolding handle_user_created get_free_client choose close_if_full spawn place_user find_client
none_listed = refl

abbrev one_left : Server
one_left = handle_user_destroyed 7 (handle_new_client_connection 1 queued)

History-Inv_example : Inv one_left
History-Inv_example = History-Inv (
    History.next
      (History.next
        (History.next (History.start (server_with []) refl refl) (Step.created 10 100 7 nobody_yet))
        (Step.connection 1 none_listed))
      (Step.destroyed 7))

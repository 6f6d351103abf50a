-- ===== src/Backends/Reached.antt =====
-- Any sequence of the server's handlers, and what holds after it.
use spectrum.Prelude.{ℕ, ◌≡◌, refl, subst, Bool, true, [], some, arith, nat_eq}
use spectrum.Prelude.Members.{count, contains}
use spectrum.Backends.Defs.{Server}
use spectrum.Backends.Places.{places, Frame, Inv, Inv-Frame, total}
use spectrum.Backends.{handle_user_created, handle_user_destroyed, connect_waiting_users}
use spectrum.Backends.Arrival.{handle_user_created-Inv, handle_user_destroyed-Inv}
use spectrum.Backends.Lifecycle.{
  set_connected, handle_new_client_connection, send_ping, handle_pong_received,
  handle_session_finished,
}
use spectrum.Backends.Connect.{handle_new_client_connection-Inv, handle_pong_received-places}
use spectrum.Backends.Session.{handle_session_finished-settled}
use spectrum.Backends.Waiting.{connect_waiting_users-settles}
use spectrum.Backends.Pings.{move_to_long_run_backend, collect_backend}
use spectrum.Backends.Pings.Idle.{Hosted, move_to_long_run_backend-places}

-- A user is created who has no place, a backend connects at an address that is not taken, a session
-- ends that is listed, and a user is moved who is on the backend that he points to.
pub data Step (s : Server) : Server → Type 0 where
  created : (now pid u : ℕ) → places u s ≡ 0 → Step s (handle_user_created now pid u s)
  destroyed : (u : ℕ) → Step s (handle_user_destroyed u s)
  connection : (a : ℕ) → count a s.clients ≡ 0 → Step s (handle_new_client_connection a s)
  pong : (now pid a : ℕ) → Step s (handle_pong_received now pid a s)
  ping : (a : ℕ) → Step s (send_ping a s)
  connected : (on : Bool) (now u : ℕ) → Step s (set_connected on now u s)
  login : (now pid : ℕ) → Step s (connect_waiting_users now pid s)
  collection : Step s (collect_backend s)
  moved : (now pid u : ℕ) → Hosted u s → Step s (move_to_long_run_backend now pid u s).0
  finished :
      (now pid a : ℕ) (t : Server)
      → contains a s.clients ≡ true
      → handle_session_finished now pid a s ≡ some t
      → Step s t

pub data History : Server → Type 0 where
  start : (s : Server) → s.clients ≡ [] → s.waiting_users ≡ [] → History s
  next : {s t : Server} → History s → Step s t → History t

send_ping-Frame : (a : ℕ) (s : Server) → Frame s (send_ping a s)
unfolding send_ping
send_ping-Frame a s = record {
  clients = ground arith;
  waiting = ground arith;
  backend_of = λ w. ground arith;
  users = λ b. ground arith;
  limit = ground arith;
}

set_connected-Frame : (on : Bool) (now u : ℕ) (s : Server) → Frame s (set_connected on now u s)
unfolding set_connected
set_connected-Frame on now u s = record {
  clients = refl;
  waiting = refl;
  backend_of = λ w. ground arith;
  users = λ b. refl;
  limit = refl;
}

collect_backend-Frame : (s : Server) → Frame s (collect_backend s)
unfolding collect_backend
collect_backend-Frame s = record {
  clients = ground arith;
  waiting = ground arith;
  backend_of = λ w. ground arith;
  users = λ b. ground arith;
  limit = ground arith;
}

empty-Inv : (s : Server) → s.clients ≡ [] → s.waiting_users ≡ [] → Inv s
unfolding places total
empty-Inv s c w = record {
  distinct = λ a. ground arith;
  once = λ u. ground arith;
  assigned = λ a u p q. ground arith;
  sizes = λ a p. ground arith;
}

Step-Inv : {s t : Server} → Step s t → Inv s → Inv t
Step-Inv {s} (Step.created now pid u new) v = handle_user_created-Inv now pid u s v new
Step-Inv {s} (Step.destroyed u) v = handle_user_destroyed-Inv u s v
Step-Inv {s} (Step.connection a new) v = (handle_new_client_connection-Inv a s v new).0
Step-Inv {s} (Step.pong now pid a) v = (handle_pong_received-places now pid a s v).0
Step-Inv {s} (Step.ping a) v = Inv-Frame (send_ping-Frame a s) v
Step-Inv {s} (Step.connected on now u) v = Inv-Frame (set_connected-Frame on now u s) v
Step-Inv {s} (Step.login now pid) v = (connect_waiting_users-settles now pid s v).0
Step-Inv {s} Step.collection v = Inv-Frame (collect_backend-Frame s) v
Step-Inv {s} (Step.moved now pid u hosted) v =
    (move_to_long_run_backend-places now pid u s v hosted).0
Step-Inv {s} (Step.finished now pid a t listed e) v =
    let (x, ends, w, _, _) = handle_session_finished-settled now pid a s v listed in
    subst Inv (cc (ends, e)) w

pub History-Inv : {s : Server} → History s → Inv s
History-Inv (History.start s c w) = empty-Inv s c w
History-Inv (History.next r step) = Step-Inv step (History-Inv r)

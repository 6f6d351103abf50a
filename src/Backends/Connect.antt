-- ===== src/Backends/Connect.antt =====
-- A backend connects, and its first PONG arrives.
use spectrum.Prelude.{
  ℕ, ◌≡◌, ◌≢◌, ◌⊎◌, refl, ◌∙◌, true, false, [], ◌∷◌, arith, nat_eq, if◌then◌else◌, beq_self, inl,
  inr,
}
use spectrum.Prelude.Members.{count}
use spectrum.Backends.Defs.{Server, Backend, set_backend, first_ping, Pong}
use spectrum.Backends.Places.{Frame, Inv, Inv-Frame, places, places-Frame, total, total-update_none}
use spectrum.Backends.{connect_waiting_users}
use spectrum.Backends.Waiting.{connect_waiting_users-settles}
use spectrum.Backends.Lifecycle.{handle_new_client_connection, send_ping, handle_pong_received}

-- A new backend without users in front of the others.
module _ (a : ℕ) (b : Backend) (s : Server) (new : count a s.clients ≡ 0)
    (empty : b.users ≡ []) where
  abbrev added : Server
  added = set_backend a b (record s { clients = a ∷ s.clients })

  places-added : (w : ℕ) → places w added ≡ places w s
  unfolding places total
  places-added w = ground (arith, total-update_none w a b s.backend s.clients new, empty)

  added-Inv : Inv s → Inv added
  added-Inv v = record {
    distinct = λ x. ground (arith, v.distinct x, new);
    once = λ w. ground (arith, places-added w, v.once w);
    assigned = λ x w p q. ground (arith, v.assigned x w, empty);
    sizes = λ x p. ground (arith, v.sizes x, empty);
  }

module _ (a : ℕ) (s : Server) (v : Inv s) (new : count a s.clients ≡ 0) where
  abbrev client : Backend
  client = record {
    pong_received = first_ping;
    users = [];
    connection = true;
    res = 0;
    accept_users = if s.is_next_long_run then false else true;
    long_run = s.is_next_long_run;
    will_die = true;
    id = [];
  }

  connected-Frame : Frame (added a client s new refl) (handle_new_client_connection a s)
  unfolding handle_new_client_connection send_ping
  connected-Frame = record {
    clients = ground arith;
    waiting = ground arith;
    backend_of = λ w. ground arith;
    users = λ x. ground (arith, beq_self a);
    limit = ground arith;
  }

  -- In a state with the invariant, the connection of a backend at an address that is not listed keeps
  -- the invariant and everybody's number of places, and puts the backend in front of the others.
  pub handle_new_client_connection-Inv :
      Inv (handle_new_client_connection a s)
      × ((w : ℕ) → places w (handle_new_client_connection a s) ≡ places w s)
      × ((handle_new_client_connection a s).clients ≡ a ∷ s.clients)
  handle_new_client_connection-Inv = (
    Inv-Frame connected-Frame (added-Inv a client s new refl v),
    λ w. places-Frame connected-Frame w ∙ places-added a client s new refl w,
    connected-Frame.clients,
  )

pong_cases : (p : Pong) → (p ≡ first_ping) ⊎ (p ≢ first_ping)
pong_cases p = ground arith

module _ (now pid a : ℕ) (s : Server) (v : Inv s) where
  abbrev ready : Server
  ready = record (set_backend a (record (s.backend a) { will_die = false }) s) {
    first_pong = false;
    started = if s.first_pong then true else s.started;
  }

  ready-Frame : Frame s ready
  ready-Frame = record {
    clients = refl;
    waiting = refl;
    backend_of = λ w. refl;
    users = λ x. ground arith;
    limit = refl;
  }

  abbrev answered : Server → Server
  answered t = set_backend a (record (t.backend a) { pong_received = Pong.received }) t

  answered-Frame : (t : Server) → Frame t (answered t)
  answered-Frame t = record {
    clients = refl;
    waiting = refl;
    backend_of = λ w. refl;
    users = λ x. ground arith;
    limit = refl;
  }

  first :
      (s.backend a).pong_received ≡ first_ping
      → handle_pong_received now pid a s ≡ answered (connect_waiting_users now pid ready)
  unfolding handle_pong_received
  first e = ground (arith, e)

  later : (s.backend a).pong_received ≢ first_ping → handle_pong_received now pid a s ≡ answered s
  unfolding handle_pong_received
  later e = ground (arith, e)

  -- In a state with the invariant, a PONG, the first of its backend or a later one, keeps the
  -- invariant and everybody's number of places.
  pub handle_pong_received-places :
      Inv (handle_pong_received now pid a s)
      × ((w : ℕ) → places w (handle_pong_received now pid a s) ≡ places w s)
  handle_pong_received-places = elim (pong_cases (s.backend a).pong_received) [
    | inl e ↦
        let (w, same, _) = connect_waiting_users-settles now pid ready (Inv-Frame ready-Frame v) in
        rw (first e) (
          Inv-Frame (answered-Frame (connect_waiting_users now pid ready)) w,
          λ x.
              places-Frame (answered-Frame (connect_waiting_users now pid ready)) x
              ∙ same x
              ∙ places-Frame ready-Frame x,
        )
    | inr e ↦ rw (later e) (Inv-Frame (answered-Frame s) v, places-Frame (answered-Frame s))
  ]

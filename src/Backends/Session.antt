-- ===== src/Backends/Session.antt =====
-- The end of a backend's session: what happens to each of its users, and to everybody else.
use spectrum.Prelude.{ℕ, ◌+◌, ◌≡◌, refl, true, none, some, arith, nat_eq, beq_self}
use spectrum.Prelude.Members.{contains-count, contains, count, count-remove, contains-remove}
use spectrum.Backends.Defs.{Server, Order, send_to}
use spectrum.Backends.Places.{
  places, total-remove, Frame, places-Frame, Inv, Inv-Frame, send_to-Frame,
}
use spectrum.Backends.Moves.{count-le-places}
use spectrum.Backends.Lifecycle.{drop_users, mark_dead, drop_backend, handle_session_finished}
use spectrum.Backends.Drops.{settled, Dropped, Dropped-users}
use spectrum.Backends.Without.{without, Dead, drop_users-without}

-- A server without one of its backends.
module _ (a : ℕ) (s : Server) (v : Inv s) (one : count a s.clients ≡ 1) where
  places-without : (w : ℕ) → places w (without a s) + count w (s.backend a).users ≡ places w s
  unfolding places
  places-without w = omega (arith, total-remove w a s.backend s.clients one)

  without-Inv : Inv (without a s)
  without-Inv = record {
    distinct = λ b. ground (arith, v.distinct b, count-remove a b s.clients);
    once = λ w. omega (arith, v.once w, places-without w);
    assigned = λ b w p q. ground (arith, v.assigned b w, count-remove a b s.clients);
    sizes = λ b p. ground (arith, v.sizes b, count-remove a b s.clients);
  }

mark_dead-Frame : (a : ℕ) (s : Server) → Frame s (mark_dead a s)
unfolding mark_dead
mark_dead-Frame a s = record {
  clients = refl;
  waiting = refl;
  backend_of = λ w. refl;
  users = λ b. ground arith;
  limit = refl;
}

module _ (now pid a : ℕ) (s : Server) (v : Inv s) (listed : contains a s.clients ≡ true) where
  abbrev left : Server
  left = without a (mark_dead a s)

  one : count a s.clients ≡ 1
  one = ground (arith, contains-count a s.clients, v.distinct a)

  left-Inv : Inv left
  unfolding mark_dead
  left-Inv = without-Inv a (mark_dead a s) (Inv-Frame (mark_dead-Frame a s) v) one

  abbrev finished : Server
  finished = drop_backend a (drop_users now pid (s.backend a).users (mark_dead a s))

  finished-left : finished ≡ send_to a Order.exit (drop_users now pid (s.backend a).users left)
  unfolding drop_backend Dead mark_dead
  finished-left =
      rw (drop_users-without now pid a (s.backend a).users (mark_dead a s) (ground arith)) refl

  dropped : Dropped (s.backend a).users left (drop_users now pid (s.backend a).users left)
  unfolding mark_dead
  dropped =
      Dropped-users now pid (s.backend a).users left left-Inv
        (λ w. omega (arith, v.once w, count-le-places w a s (omega (arith, one))))
        (λ w p. ground (
          arith,
          v.once w,
          p,
          places-without a (mark_dead a s) (Inv-Frame (mark_dead-Frame a s) v) one w,
          places-Frame (mark_dead-Frame a s) w,
        ))

  places-finished : (w : ℕ) → places w finished ≡ settled (s.backend a).users s w
  unfolding mark_dead
  places-finished w = ground (
    arith,
    finished-left,
    places-Frame (send_to-Frame a Order.exit (drop_users now pid (s.backend a).users left)) w,
    dropped.here w,
    contains-count w (s.backend a).users,
    places-without a (mark_dead a s) (Inv-Frame (mark_dead-Frame a s) v) one w,
    places-Frame (mark_dead-Frame a s) w,
  )

  -- In a state with the invariant, the session of a listed backend ends in a state with the
  -- invariant. Each user of that backend is afterwards in one place, on another backend or in the
  -- queue, if his disconnects are not ignored and he has reconnects left; else he is in none. Everybody
  -- else is in as many places as before. The same call again on the state reached uses the backend
  -- after its deletion.
  pub handle_session_finished-settled :
      (t : Server) × (handle_session_finished now pid a s ≡ some t)
      × Inv t
      × ((w : ℕ) → places w t ≡ settled (s.backend a).users s w)
      × (handle_session_finished now pid a t ≡ none)
  unfolding handle_session_finished drop_backend
  handle_session_finished-settled = (
    finished,
    rw listed refl,
    rw finished-left (
        Inv-Frame (send_to-Frame a Order.exit (drop_users now pid (s.backend a).users left))
          dropped.inv),
    places-finished,
    ground (
      arith,
      beq_self a,
      contains-remove a a (drop_users now pid (s.backend a).users (mark_dead a s)).clients,
    ),
  )

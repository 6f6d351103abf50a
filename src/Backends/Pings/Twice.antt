-- ===== src/Backends/Pings/Twice.antt =====
-- A backend whose session ends twice in one run of the ping timer.
use spectrum.Prelude.{
  ℕ, ◌≤◌, ◌≡◌, refl, ◌∙◌, inl, inr, Bool, true, false, List, [], ◌∷◌, Option, none, some, arith,
  nat_eq, ◌==◌, Option-cases, beq_self, beq_cases,
}
use spectrum.Prelude.Members.{contains-count, contains, remove, count, contains-remove}
use spectrum.Backends.Defs.{Server, set_user, waiting}
use spectrum.Backends.{
  get_free_client, choose, close_if_full, spawn, place_user, attach, handle_user_created,
  handle_user_ready_to_connect, detach, handle_user_destroyed,
}
use spectrum.Backends.Lifecycle.{
  ConnectionError, on_ready_to_connect, reconnect_user, handle_disconnected, drop_users,
  other_error, mark_dead, drop_backend, handle_session_finished, send_ping,
}
use spectrum.Backends.Pings.{check_pings, finish_sessions, ping_timeout, move_idle_users}

-- None of the handlers of a disconnected user changes the list of backends.
clients-search :
    (accept long check : Bool) (now pid : ℕ) (s : Server)
    → (get_free_client accept long check now pid s).0.clients ≡ s.clients
unfolding get_free_client choose close_if_full spawn
clients-search accept long check now pid s = ground arith

clients-place : (u : ℕ) (c : Option ℕ) (s : Server) → (place_user u c s).clients ≡ s.clients
unfolding place_user attach
clients-place u none s = refl
clients-place u (some a) s = refl

clients-created :
    (now pid u : ℕ) (s : Server) → (handle_user_created now pid u s).clients ≡ s.clients
unfolding handle_user_created
clients-created now pid u s =
    clients-place u (get_free_client true false false now pid s).1
      (get_free_client true false false now pid s).0
    ∙ clients-search true false false now pid s

clients-destroyed : (u : ℕ) (s : Server) → (handle_user_destroyed u s).clients ≡ s.clients
unfolding handle_user_destroyed detach
clients-destroyed u s = ground arith

clients-ready : (u : ℕ) (s : Server) → (on_ready_to_connect u s).clients ≡ s.clients
unfolding on_ready_to_connect handle_user_ready_to_connect
clients-ready u s = ground arith

clients-reconnected :
    (now pid u : ℕ) (s : Server) → (reconnect_user now pid u s).clients ≡ s.clients
unfolding reconnect_user
clients-reconnected now pid u s = simp (clients-ready, clients-created, clients-destroyed)

clients-disconnected :
    (e : ConnectionError) (now pid u : ℕ) (s : Server)
    → (handle_disconnected e now pid u s).clients ≡ s.clients
unfolding handle_disconnected
clients-disconnected e now pid u s =
    ground (arith, clients-reconnected now pid u s, clients-destroyed u s)

clients-dropped :
    (now pid : ℕ) (us : List ℕ) (s : Server) → (drop_users now pid us s).clients ≡ s.clients
unfolding drop_users
clients-dropped now pid [] s = refl
clients-dropped now pid (u ∷ us) s =
    clients-dropped now pid us (handle_disconnected other_error now pid u t)
    ∙ clients-disconnected other_error now pid u t
  where
    t : Server
    t = set_user u (record (s.user u) { backend = none }) s

clients-finished :
    (now pid a : ℕ) (s t : Server)
    → handle_session_finished now pid a s ≡ some t
    → t.clients ≡ remove a s.clients
unfolding handle_session_finished drop_backend mark_dead
clients-finished now pid a s t h =
    ground (arith, clients-dropped now pid (s.backend a).users (mark_dead a s))

-- The sessions cannot all end where one of the backends is gone already, or stands twice.
module _ (now pid a : ℕ) where
  finished-gone :
      (s : Server) → contains a s.clients ≡ false → handle_session_finished now pid a s ≡ none
  unfolding handle_session_finished
  finished-gone s g = ground arith

  -- One session ends, and the others after it cannot.
  finish_sessions-first :
      (x : ℕ) (xs : List ℕ) (s : Server)
      → ((t : Server) → t.clients ≡ remove x s.clients → finish_sessions now pid xs t ≡ none)
      → finish_sessions now pid (x ∷ xs) s ≡ none
  unfolding finish_sessions
  finish_sessions-first x xs s h = elim (Option-cases (handle_session_finished now pid x s)) [
    | inl e ↦ ground (arith, e)
    | inr (t, e) ↦ ground (arith, e, h t (clients-finished now pid x s t e))
  ]

  now_gone :
      (y : ℕ) (xs : List ℕ) (s : Server)
      → contains a s.clients ≡ false
      → y ≡ a
      → finish_sessions now pid (y ∷ xs) s ≡ none
  unfolding finish_sessions
  now_gone y xs s g e = ground (arith, e, finished-gone s g)

  finish_sessions-gone :
      (xs : List ℕ) (s : Server)
      → contains a s.clients ≡ false
      → 1 ≤ count a xs
      → finish_sessions now pid xs s ≡ none
  finish_sessions-gone [] s g h = absurd (omega arith)
  finish_sessions-gone (x ∷ xs) s g h = elim (beq_cases x a) [
    | inl e ↦ now_gone x xs s g e
    | inr e ↦ finish_sessions-first x xs s (λ t c.
        finish_sessions-gone xs t (rw c (ground (arith, contains-remove x a s.clients)))
          (ground arith))
  ]

  finish_sessions-twice :
      (xs : List ℕ) (s : Server) → 2 ≤ count a xs → finish_sessions now pid xs s ≡ none
  finish_sessions-twice [] s h = absurd (omega arith)
  finish_sessions-twice (x ∷ xs) s h = elim (beq_cases x a) [
    | inl e ↦ finish_sessions-first x xs s (λ t c.
        finish_sessions-gone xs t
          (rw c (ground (arith, e, beq_self a, contains-remove x a s.clients))) (ground (arith, h)))
    | inr e ↦ finish_sessions-first x xs s (λ t c. finish_sessions-twice xs t (ground arith))
  ]

  module _ (x : ℕ) (s : Server) (e : (x == a) ≡ false) where
    pong_of_other : ((send_ping x s).backend a).pong_received ≡ (s.backend a).pong_received
    unfolding send_ping
    pong_of_other = ground arith

    users_of_other : ((send_ping x s).backend a).users ≡ (s.backend a).users
    unfolding send_ping
    users_of_other = ground arith

  check_pings-twice :
      (xs : List ℕ) (s : Server)
      → 1 ≤ count a xs
      → (s.backend a).pong_received ≡ waiting
      → (s.backend a).users ≡ []
      → 2 ≤ count a (check_pings xs s).1
  unfolding check_pings
  check_pings-twice [] s h p q = absurd (omega arith)
  check_pings-twice (x ∷ xs) s h p q = elim (beq_cases x a) [
    | inl e ↦ rw (e, p, q) (ground (arith, beq_self a))
    | inr e ↦ ground (
      arith,
      e,
      check_pings-twice xs s (ground arith) p q,
      check_pings-twice xs (send_ping x s) (ground arith) (pong_of_other x s e ∙ p)
          (users_of_other x s e ∙ q),
    )
  ]

  nobody_moves : (s : Server) → s.idle_reconnect_time ≡ 0 → move_idle_users now pid s ≡ s
  unfolding move_idle_users
  nobody_moves s idle = ground arith

  -- Without the moving of idle users, a listed backend that has no users and did not answer the last
  -- PING makes the ping timer end one session twice, so it uses that backend after its deletion.
  pub ping_timeout-twice :
      (s : Server)
      → s.idle_reconnect_time ≡ 0
      → contains a s.clients ≡ true
      → (s.backend a).pong_received ≡ waiting
      → (s.backend a).users ≡ []
      → ping_timeout now pid s ≡ none
  unfolding ping_timeout
  ping_timeout-twice s idle listed p q = rw (nobody_moves s idle) (
      finish_sessions-twice (check_pings s.clients t).1 (check_pings s.clients t).0
        (check_pings-twice s.clients t (ground (arith, contains-count a s.clients)) p q))
    where
      t : Server
      t = record s { starting_backend = false }

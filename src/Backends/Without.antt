-- ===== src/Backends/Without.antt =====
-- A backend that will die is not chosen by `getFreeClient`, so what the server does for the users is
-- the same whether the backend is still listed or not.
use spectrum.Prelude.{
  ℕ, ◌+◌, ◌-◌, ◌≡◌, refl, inl, inr, Bool, true, false, ◌&&◌, List, [], ◌∷◌, Option, none, some,
  arith, nat_eq, ltb, if◌then◌else◌, Bool-cases, beq_cases,
}
use spectrum.Prelude.Members.{remove}
use spectrum.Backends.Defs.{Server, set_user}
use spectrum.Backends.{
  suits, find_client, close_if_full, spawn, choose, get_free_client, attach, place_user,
  handle_user_created, handle_user_ready_to_connect, detach, handle_user_destroyed,
}
use spectrum.Backends.Lifecycle.{
  on_ready_to_connect, reconnect_user, handle_disconnected, drop_users, other_error, reconnects,
}

abbrev pub without : ℕ → Server → Server
without a s = record s { clients = remove a s.clients }

unfoldable pub Dead : ℕ → Server → Type 0
Dead a s = (s.backend a).will_die ≡ true

find_client-remove :
    (p : ℕ → Bool) (a : ℕ) (xs : List ℕ)
    → p a ≡ false
    → find_client p (remove a xs) ≡ find_client p xs
unfolding find_client
find_client-remove p a [] h = refl
find_client-remove p a (x ∷ xs) h = elim (beq_cases x a) [
  | inl e ↦ ground (arith, e, find_client-remove p a xs h)
  | inr e ↦ ground (arith, find_client-remove p a xs h)
]

suits-Dead : (accept long : Bool) (a : ℕ) (s : Server) → Dead a s → suits s accept long a ≡ false
unfolding suits Dead
suits-Dead accept long a s h = ground arith

find_client-without :
    (accept long : Bool) (a : ℕ) (s : Server)
    → Dead a s
    → find_client (suits (without a s) accept long) (remove a s.clients)
      ≡ find_client (suits s accept long) s.clients
unfolding suits
find_client-without accept long a s h =
    find_client-remove (suits s accept long) a s.clients (suits-Dead accept long a s h)

choose-without :
    (a : ℕ) (long check : Bool) (pid : ℕ) (c : Option ℕ) (s : Server)
    → choose long check pid c (without a s)
      ≡ (without a (choose long check pid c s).0, (choose long check pid c s).1)
unfolding choose close_if_full spawn
choose-without a long check pid none s = ground arith
choose-without a long check pid (some b) s = ground arith

chosen-without :
    (accept long check : Bool) (pid a : ℕ) (s : Server)
    → Dead a s
    → choose long check pid
        (find_client (suits (without a s) accept long) (remove a s.clients))
        (without a s)
      ≡ (let r = choose long check pid (find_client (suits s accept long) s.clients) s in
          (without a r.0, r.1))
chosen-without accept long check pid a s h =
    rw (find_client-without accept long a s h)
      (choose-without a long check pid (find_client (suits s accept long) s.clients) s)

module _ (a : ℕ) (s : Server) (h : Dead a s) where
  pub get_free_client-Dead :
      (accept long check : Bool) (now pid : ℕ)
      → Dead a (get_free_client accept long check now pid s).0
  unfolding get_free_client choose close_if_full spawn Dead
  get_free_client-Dead accept long check now pid = ground arith

  pub get_free_client-without :
      (accept long check : Bool) (now pid : ℕ)
      → get_free_client accept long check now pid (without a s) ≡ (
        without a (get_free_client accept long check now pid s).0,
        (get_free_client accept long check now pid s).1,
      )
  unfolding get_free_client Dead
  get_free_client-without accept long true now pid =
      elim (Bool-cases (ltb 0 s.login_delay && ltb (now - s.last_login) s.login_delay)) [
        | inl e ↦ rw e refl
        | inr e ↦ rw e (chosen-without accept long true pid a s h)
      ]
  get_free_client-without accept long false now pid =
      elim (Bool-cases (ltb 0 s.login_delay && ltb (now - s.last_login) s.login_delay)) [
        | inl e ↦ rw e refl
        | inr e ↦ rw e (chosen-without accept long false pid a (record s { last_login = now }) h)
      ]

place_user-without :
    (a u : ℕ) (c : Option ℕ) (s : Server)
    → place_user u c (without a s) ≡ without a (place_user u c s)
unfolding place_user attach
place_user-without a u none s = refl
place_user-without a u (some b) s = refl

place_user-Dead : (a u : ℕ) (c : Option ℕ) (s : Server) → Dead a s → Dead a (place_user u c s)
unfolding place_user attach Dead
place_user-Dead a u none s h = h
place_user-Dead a u (some b) s h = ground arith

pub handle_user_destroyed-without :
    (a u : ℕ) (s : Server)
    → handle_user_destroyed u (without a s) ≡ without a (handle_user_destroyed u s)
unfolding handle_user_destroyed detach
handle_user_destroyed-without a u s = ground arith

handle_user_destroyed-Dead : (a u : ℕ) (s : Server) → Dead a s → Dead a (handle_user_destroyed u s)
unfolding handle_user_destroyed detach Dead
handle_user_destroyed-Dead a u s h = ground arith

module _ (now pid a u : ℕ) (s : Server) (h : Dead a s) where
  handle_user_created-without :
      handle_user_created now pid u (without a s) ≡ without a (handle_user_created now pid u s)
  unfolding handle_user_created
  handle_user_created-without = rw (get_free_client-without a s h true false false now pid) (
      place_user-without a u (get_free_client true false false now pid s).1
        (get_free_client true false false now pid s).0)

  handle_user_created-Dead : Dead a (handle_user_created now pid u s)
  unfolding handle_user_created
  handle_user_created-Dead =
      place_user-Dead a u (get_free_client true false false now pid s).1
        (get_free_client true false false now pid s).0
        (get_free_client-Dead a s h true false false now pid)

on_ready_to_connect-without :
    (a u : ℕ) (s : Server)
    → on_ready_to_connect u (without a s) ≡ without a (on_ready_to_connect u s)
unfolding on_ready_to_connect handle_user_ready_to_connect
on_ready_to_connect-without a u s = ground arith

on_ready_to_connect-Dead : (a u : ℕ) (s : Server) → Dead a s → Dead a (on_ready_to_connect u s)
unfolding on_ready_to_connect handle_user_ready_to_connect Dead
on_ready_to_connect-Dead a u s h = ground arith

-- A choice between three servers, each with a property.
choose_of_three :
    (P : Server → Type 0) (b c : Bool) {x y z : Server}
    → P x
    → P y
    → P z
    → P (if b then x else if c then y else z)
choose_of_three P true c px py pz = px
choose_of_three P false true px py pz = py
choose_of_three P false false px py pz = pz

without-of_three :
    (a : ℕ) (b c : Bool) {x y z : Server} (x' y' z' : Server)
    → x ≡ without a x'
    → y ≡ without a y'
    → z ≡ without a z'
    → (if b then x else if c then y else z) ≡ without a (if b then x' else if c then y' else z')
without-of_three a true c x' y' z' px py pz = px
without-of_three a false true x' y' z' px py pz = py
without-of_three a false false x' y' z' px py pz = pz

module _ (now pid a : ℕ) where
  module _ (u : ℕ) (s : Server) (h : Dead a s) where
    abbrev retried : Server
    retried =
        set_user u (record (s.user u) { reconnect_counter = (s.user u).reconnect_counter + 1 }) s

    retried-Dead : Dead a (handle_user_created now pid u (handle_user_destroyed u retried))
    unfolding Dead
    retried-Dead =
        handle_user_created-Dead now pid a u (handle_user_destroyed u retried)
          (handle_user_destroyed-Dead a u retried h)

    reconnect_user-Dead : Dead a (reconnect_user now pid u s)
    unfolding reconnect_user
    reconnect_user-Dead =
        on_ready_to_connect-Dead a u
          (handle_user_created now pid u (handle_user_destroyed u retried)) retried-Dead

    reconnect_user-without :
        reconnect_user now pid u (without a s) ≡ without a (reconnect_user now pid u s)
    unfolding reconnect_user Dead
    reconnect_user-without =
        rw
          (
            handle_user_destroyed-without a u retried,
            handle_user_created-without now pid a u (handle_user_destroyed u retried)
                (handle_user_destroyed-Dead a u retried h),
          )
          (on_ready_to_connect-without a u
            (handle_user_created now pid u (handle_user_destroyed u retried)))

    handle_disconnected-Dead : Dead a (handle_disconnected other_error now pid u s)
    unfolding handle_disconnected
    handle_disconnected-Dead =
        choose_of_three (Dead a) (s.user u).ignore_disconnect (reconnects (s.user u) other_error) h
          reconnect_user-Dead (handle_user_destroyed-Dead a u s h)

    handle_disconnected-without :
        handle_disconnected other_error now pid u (without a s)
        ≡ without a (handle_disconnected other_error now pid u s)
    unfolding handle_disconnected
    handle_disconnected-without =
        without-of_three a (s.user u).ignore_disconnect (reconnects (s.user u) other_error) s
          (reconnect_user now pid u s) (handle_user_destroyed u s) refl reconnect_user-without
          (handle_user_destroyed-without a u s)

  abbrev let_go : ℕ → Server → Server
  let_go u s = set_user u (record (s.user u) { backend = none }) s

  pub drop_users-without :
      (us : List ℕ) (s : Server)
      → Dead a s
      → drop_users now pid us (without a s) ≡ without a (drop_users now pid us s)
  unfolding drop_users Dead
  drop_users-without [] s h = refl
  drop_users-without (u ∷ us) s h = rw (handle_disconnected-without u (let_go u s) h) (
      drop_users-without us (handle_disconnected other_error now pid u (let_go u s))
        (handle_disconnected-Dead u (let_go u s) h))

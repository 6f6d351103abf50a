-- ===== src/Backends/Waiting.antt =====
-- The queue of users who wait for a backend: `connectWaitingUsers`.
use spectrum.Prelude.{
  ℕ, zero, suc, ◌+◌, ◌-◌, ◌≤◌, ◌≡◌, refl, ◌∙◌, ◌⊎◌, inl, inr, Bool, true, false, ◌&&◌, List, [],
  ◌∷◌, Option, none, some, arith, nat_eq, ◌==◌, ltb, if◌then◌else◌, length, Option-cases,
  List-cases, beq_self,
}
use spectrum.Backends.Defs.{Server}
use spectrum.Backends.{
  get_free_client, suits, find_client, choose, close_if_full, spawn, place_user, attach,
  handle_user_created, handle_user_ready_to_connect, connect_if_ready, connect_loop,
  connect_waiting_users,
}
use spectrum.Backends.Places.{places, Frame, places-Frame, Inv, Inv-Frame}
use spectrum.Backends.Search.{get_free_client-Frame}
use spectrum.Backends.Moves.{set_waiting, places-set_waiting, set_waiting-Inv}
use spectrum.Backends.Arrival.{places-handle_user_created, handle_user_created-Inv}

connect_if_ready-Frame : (u : ℕ) (s : Server) → Frame s (connect_if_ready u s)
unfolding connect_if_ready handle_user_ready_to_connect
connect_if_ready-Frame u s = record {
  clients = ground arith;
  waiting = ground arith;
  backend_of = λ w. ground arith;
  users = λ b. ground arith;
  limit = ground arith;
}

module _ (now pid : ℕ) where
  abbrev search : Server → Server × Option ℕ
  search s = get_free_client true false true now pid s

  abbrev too_early : Server → Bool
  too_early s = ltb 0 s.login_delay && ltb (now - s.last_login) s.login_delay

  -- Nobody waits, or no backend is free.
  unfoldable pub Settled : Server → Type 0
  Settled s = (s.waiting_users ≡ []) ⊎ ((search s).1 ≡ none)

  search-some :
      (s : Server) (a : ℕ)
      → (search s).1 ≡ some a
      → (too_early s ≡ false)
        × (find_client (suits s true false) s.clients ≡ some a)
        × ((search s).0 ≡ s)
  unfolding get_free_client choose close_if_full spawn
  search-some s a e = ground (arith, e)

  search-none : (s : Server) → (search s).1 ≡ none → (search (search s).0).1 ≡ none
  unfolding get_free_client choose close_if_full spawn suits
  search-none s e = ground (arith, e)

  -- A backend that is free for a search is free for the first user as well.
  created_waiting :
      (u a : ℕ) (rest : List ℕ) (s : Server)
      → (search s).1 ≡ some a
      → (handle_user_created now pid u (record s { waiting_users = rest })).waiting_users ≡ rest
  unfolding handle_user_created get_free_client choose close_if_full place_user attach suits
  created_waiting u a rest s e = let (t, f, q) = search-some s a e in ground (arith, t, f)

  module _ (fuel : ℕ) (s : Server) where
    loop_empty : s.waiting_users ≡ [] → connect_loop (suc fuel) now pid s ≡ s
    unfolding connect_loop
    loop_empty e = ground (arith, e)

    module _ (u : ℕ) (rest : List ℕ) (e : s.waiting_users ≡ u ∷ rest) where
      loop_none : (search s).1 ≡ none → connect_loop (suc fuel) now pid s ≡ (search s).0
      unfolding connect_loop
      loop_none f = ground (arith, e, f)

      abbrev served : Server
      served =
          connect_if_ready u (handle_user_created now pid u (record s { waiting_users = rest }))

      loop_some :
          (a : ℕ)
          → (search s).1 ≡ some a
          → connect_loop (suc fuel) now pid s ≡ connect_loop fuel now pid served
      unfolding connect_loop
      loop_some a f = let (t, g, q) = search-some s a f in ground (arith, e, f, q)

  record Served (s t : Server) : Type 0 where
    inv : Inv t
    same : (w : ℕ) → places w t ≡ places w s
    settled : Settled t

  module _ (u : ℕ) (rest : List ℕ) (s : Server) (e : s.waiting_users ≡ u ∷ rest) (v : Inv s) where
    abbrev dequeued : Server
    dequeued = set_waiting rest s

    places-dequeued : (w : ℕ) → places w dequeued + (if u == w then 1 else 0) ≡ places w s
    places-dequeued w = ground (arith, e, places-set_waiting rest s w)

    dequeued-Inv : Inv dequeued
    dequeued-Inv = set_waiting-Inv rest s v (λ w. omega (arith, v.once w, places-dequeued w))

    nowhere : places u dequeued ≡ 0
    nowhere = ground (arith, places-dequeued u, v.once u, beq_self u)

    served-Inv : Inv (connect_if_ready u (handle_user_created now pid u dequeued))
    served-Inv =
        Inv-Frame (connect_if_ready-Frame u (handle_user_created now pid u dequeued))
          (handle_user_created-Inv now pid u dequeued dequeued-Inv nowhere)

    places-served :
        (w : ℕ)
        → places w (connect_if_ready u (handle_user_created now pid u dequeued)) ≡ places w s
    places-served w = ground (
      arith,
      places-Frame (connect_if_ready-Frame u (handle_user_created now pid u dequeued)) w,
      places-handle_user_created now pid u dequeued dequeued-Inv w,
      places-dequeued w,
    )

    waiting-served :
        (a : ℕ)
        → (search s).1 ≡ some a
        → (connect_if_ready u (handle_user_created now pid u dequeued)).waiting_users ≡ rest
    waiting-served a f =
        (connect_if_ready-Frame u (handle_user_created now pid u dequeued)).waiting
        ∙ created_waiting u a rest s f

  loop-Served :
      (fuel : ℕ) (s : Server)
      → Inv s
      → length s.waiting_users ≤ fuel
      → Served s (connect_loop fuel now pid s)
  unfolding Settled connect_loop
  loop-Served zero s v h = record { inv = v; same = λ w. refl; settled = inl (ground arith) }
  loop-Served (suc fuel) s v h = elim (List-cases s.waiting_users) [
    | inl e ↦ rw (loop_empty fuel s e) (record { inv = v; same = λ w. refl; settled = inl e })
    | inr (u, rest, e) ↦ elim (Option-cases (search s).1) [
      | inl f ↦ rw (loop_none fuel s u rest e f) (record {
        inv = Inv-Frame (get_free_client-Frame true false true now pid s) v;
        same = places-Frame (get_free_client-Frame true false true now pid s);
        settled = inr (search-none s f);
      })
      | inr (a, f) ↦
          let r =
            loop-Served fuel (served fuel s u rest e) (served-Inv u rest s e v)
              (rw (waiting-served u rest s e v a f) (ground (arith, e))) in
          rw (loop_some fuel s u rest e a f) (record {
            inv = r.inv;
            same = λ w. r.same w ∙ places-served u rest s e v w;
            settled = r.settled;
          })
    ]
  ]

  -- In a state with the invariant, `connectWaitingUsers` stops with as many rounds as users wait,
  -- keeps the invariant and everybody's number of places, and ends where nobody waits or where no
  -- backend is free for a search.
  pub connect_waiting_users-settles :
      (s : Server)
      → Inv s
      → Inv (connect_waiting_users now pid s)
        × ((w : ℕ) → places w (connect_waiting_users now pid s) ≡ places w s)
        × Settled (connect_waiting_users now pid s)
  unfolding connect_waiting_users
  connect_waiting_users-settles s v =
      let r = loop-Served (length s.waiting_users) s v (omega arith) in (r.inv, r.same, r.settled)

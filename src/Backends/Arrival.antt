-- ===== src/Backends/Arrival.antt =====
-- A user arrives and leaves: `handleUserCreated` and `handleUserDestroyed`.
use spectrum.Prelude.{
  ℕ, ◌+◌, ◌≤◌, ◌≡◌, ◌≢◌, ◌⊎◌, inl, inr, true, false, [], ◌∷◌, ◌++◌, none, some, arith, nat_eq, ◌==◌,
  if◌then◌else◌, Option-cases,
}
use spectrum.Prelude.Members.{remove, count, count-remove}
use spectrum.Backends.Defs.{Server, Order, send_to, listen}
use spectrum.Backends.Places.{
  places, Frame, places-Frame, Inv, Inv-Frame, listen-Frame, send_to-Frame, places_zero,
}
use spectrum.Backends.{get_free_client, attach, handle_user_created, detach, handle_user_destroyed}
use spectrum.Backends.Search.{get_free_client-Frame, get_free_client-some}
use spectrum.Backends.Moves.{
  places-attach, places-detach, places-detach_unlisted, detach_unlisted-Inv, attach-Inv, detach-Inv,
  set_waiting, places-set_waiting, set_waiting-Inv, places-enqueue,
}

-- A user who stands nowhere is placed once by `handle_user_created`: on a backend with room for him,
-- or in the queue. Every other user stays where he is.
module _ (now pid u : ℕ) (s : Server) (v : Inv s) where
  abbrev after_search : Server
  after_search = (get_free_client true false false now pid s).0

  searched : Frame s after_search
  searched = get_free_client-Frame true false false now pid s

  created_none :
      (get_free_client true false false now pid s).1 ≡ none
      → handle_user_created now pid u s
        ≡ record after_search { waiting_users = after_search.waiting_users ++ u ∷ [] }
  unfolding handle_user_created
  created_none e = ground arith

  created_some :
      (a : ℕ)
      → (get_free_client true false false now pid s).1 ≡ some a
      → handle_user_created now pid u s ≡ listen true u (attach u a after_search)
  unfolding handle_user_created
  created_some a e = ground arith

  found_one :
      (a : ℕ) → (get_free_client true false false now pid s).1 ≡ some a → count a s.clients ≡ 1
  found_one a e =
      omega (arith, v.distinct a, (get_free_client-some true false false now pid s a e).0)

  -- In a state with the invariant, `handleUserCreated` puts the user in one more place (the queue or
  -- a backend) and leaves every other user in as many places as before.
  pub places-handle_user_created :
      (w : ℕ) → places w (handle_user_created now pid u s) ≡ places w s + (if u == w then 1 else 0)
  places-handle_user_created w =
      elim (Option-cases (get_free_client true false false now pid s).1) [
        | inl e ↦
            rw (created_none e)
              (ground (arith, places-enqueue u w after_search, places-Frame searched w))
        | inr (a, e) ↦ rw (created_some a e) (
            ground (
              arith,
              places-Frame (listen-Frame true u (attach u a after_search)) w,
              places-attach u w a after_search (rw searched.clients (found_one a e)),
              places-Frame searched w,
            ))
      ]

  -- `handleUserCreated` for a user who is nowhere keeps the invariant: no backend gets more users than
  -- the limit, and the user points to the backend that he is on.
  pub handle_user_created-Inv : places u s ≡ 0 → Inv (handle_user_created now pid u s)
  handle_user_created-Inv new = elim (Option-cases (get_free_client true false false now pid s).1) [
    | inl e ↦ rw (created_none e) (
        set_waiting-Inv (after_search.waiting_users ++ u ∷ []) after_search (Inv-Frame searched v)
          (λ w.
            ground
              (arith, places-enqueue u w after_search, places-Frame searched w, v.once w, new)))
    | inr (a, e) ↦
        let (one, room) = get_free_client-some true false false now pid s a e in
        rw (created_some a e) (
          Inv-Frame (listen-Frame true u (attach u a after_search)) (
            attach-Inv u a after_search (Inv-Frame searched v) (rw searched.clients one)
              (omega (arith, places-Frame searched u, new))
              (rw (searched.users a, searched.limit) room)))
  ]

-- A user who leaves stands nowhere afterwards, and every other user stays where he is.
module _ (u : ℕ) (s : Server) (v : Inv s) where
  abbrev out_of_queue : Server
  out_of_queue = listen false u (set_waiting (remove u s.waiting_users) s)

  places-out_of_queue :
      (w : ℕ) → places w out_of_queue + (if u == w then count w s.waiting_users else 0) ≡ places w s
  places-out_of_queue w = ground (
    arith,
    places-Frame (listen-Frame false u (set_waiting (remove u s.waiting_users) s)) w,
    places-set_waiting (remove u s.waiting_users) s w,
    count-remove u w s.waiting_users,
  )

  out_of_queue-Inv : Inv out_of_queue
  out_of_queue-Inv = Inv-Frame (listen-Frame false u (set_waiting (remove u s.waiting_users) s)) (
      set_waiting-Inv (remove u s.waiting_users) s v (λ w. ground (
        arith,
        places-set_waiting (remove u s.waiting_users) s w,
        count-remove u w s.waiting_users,
        v.once w,
      )))

  module _ (a : ℕ) (e : (s.user u).backend ≡ some a) where
    abbrev told : Server
    told = send_to a (Order.logout u) out_of_queue

    destroyed_some : handle_user_destroyed u s ≡ detach u a told
    unfolding handle_user_destroyed
    destroyed_some = ground (arith, e)

    told-Frame : Frame out_of_queue told
    told-Frame = send_to-Frame a (Order.logout u) out_of_queue

    told-Inv : Inv told
    told-Inv = Inv-Frame told-Frame out_of_queue-Inv

  listed_or_not : (a : ℕ) → (count a s.clients ≡ 0) ⊎ (count a s.clients ≡ 1)
  listed_or_not a = grind (arith, v.distinct a)

  destroyed_none : (s.user u).backend ≡ none → handle_user_destroyed u s ≡ out_of_queue
  unfolding handle_user_destroyed
  destroyed_none e = ground arith

  -- `handleUserDestroyed` keeps the invariant, also where the user's backend is listed no more.
  pub handle_user_destroyed-Inv : Inv (handle_user_destroyed u s)
  handle_user_destroyed-Inv = elim (Option-cases (s.user u).backend) [
    | inl e ↦ rw (destroyed_none e) out_of_queue-Inv
    | inr (a, e) ↦ rw (destroyed_some a e) (elim (listed_or_not a) [
      | inl out ↦ detach_unlisted-Inv u a (told a e) (told-Inv a e) out
      | inr one ↦ detach-Inv u a (told a e) (told-Inv a e) (omega (arith, one))
    ])
  ]

  detach_others :
      (a : ℕ) (e : (s.user u).backend ≡ some a) (w : ℕ)
      → u ≢ w
      → places w (detach u a (told a e)) ≡ places w (told a e)
  detach_others a e w other = elim (listed_or_not a) [
    | inl out ↦ places-detach_unlisted u w a (told a e) out
    | inr one ↦ ground (arith, places-detach u w a (told a e) one)
  ]

  places-destroyed_others : (w : ℕ) → u ≢ w → places w (handle_user_destroyed u s) ≡ places w s
  places-destroyed_others w other = elim (Option-cases (s.user u).backend) [
    | inl e ↦ rw (destroyed_none e) (ground (arith, places-out_of_queue w))
    | inr (a, e) ↦ rw (destroyed_some a e) (
        ground (
          arith,
          detach_others a e w other,
          places-Frame (told-Frame a e) w,
          places-out_of_queue w,
        ))
  ]

  -- The user is neither in the queue nor among the users of any backend that is listed.
  waiting_destroyed : count u (handle_user_destroyed u s).waiting_users ≡ 0
  unfolding handle_user_destroyed detach
  waiting_destroyed = ground (arith, count-remove u u s.waiting_users)

  clients_destroyed : (handle_user_destroyed u s).clients ≡ s.clients
  unfolding handle_user_destroyed detach
  clients_destroyed = ground arith

  users_destroyed :
      (b : ℕ) → 1 ≤ count b s.clients → count u ((handle_user_destroyed u s).backend b).users ≡ 0
  unfolding handle_user_destroyed detach
  users_destroyed b listed = elim (Option-cases (s.user u).backend) [
    | inl e ↦ grind (arith, v.assigned b u listed)
    | inr (a, e) ↦ ground (arith, v.assigned b u listed, count-remove u u (s.backend a).users)
  ]

  gone : places u (handle_user_destroyed u s) ≡ 0
  gone =
      places_zero u (handle_user_destroyed u s) waiting_destroyed
        (λ b p. users_destroyed b (rw clients_destroyed at p))

  -- In a state with the invariant, the user who leaves is afterwards neither in the queue nor on any
  -- listed backend, and every other user is in as many places as before.
  pub places-handle_user_destroyed :
      (w : ℕ) → places w (handle_user_destroyed u s) ≡ (if u == w then 0 else places w s)
  places-handle_user_destroyed w = ground (arith, gone, places-destroyed_others w)

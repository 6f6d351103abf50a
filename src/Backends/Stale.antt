-- ===== src/Backends/Stale.antt =====
-- A user who is to be reconnected while no backend is free.
use spectrum.Prelude.{
  ℕ, ◌≤◌, ◌≡◌, ◌∙◌, ap, true, false, [], ◌∷◌, ◌++◌, none, some, arith, nat_eq, beq_self,
}
use spectrum.Prelude.Members.{count, count-append, count-remove}
use spectrum.Backends.Defs.{Server}
use spectrum.Backends.Places.{Frame}
use spectrum.Backends.Search.{get_free_client-Frame}
use spectrum.Backends.{
  get_free_client, place_user, handle_user_created, detach, handle_user_destroyed,
}

module _ (now pid u a : ℕ) (s : Server) (e : (s.user u).backend ≡ some a) where
  abbrev left : Server
  left = handle_user_destroyed u s

  backend_of_left : (left.user u).backend ≡ some a
  unfolding handle_user_destroyed detach
  backend_of_left = ground (arith, e)

  users_of_left : count u (left.backend a).users ≡ 0
  unfolding handle_user_destroyed detach
  users_of_left = ground (arith, e, count-remove u u (s.backend a).users, beq_self u)

  module _ (free : (get_free_client true false false now pid left).1 ≡ none) where
    abbrev searched : Server
    searched = (get_free_client true false false now pid left).0

    searched-Frame : Frame left searched
    searched-Frame = get_free_client-Frame true false false now pid left

    queued :
        handle_user_created now pid u left
        ≡ record searched { waiting_users = searched.waiting_users ++ u ∷ [] }
    unfolding handle_user_created place_user
    queued = ground (arith, free)

    pub stale_backend :
        (((handle_user_created now pid u (handle_user_destroyed u s)).user u).backend ≡ some a)
        × (1 ≤ count u (handle_user_created now pid u (handle_user_destroyed u s)).waiting_users)
        × (count u ((handle_user_created now pid u (handle_user_destroyed u s)).backend a).users
            ≡ 0)
    stale_backend = rw queued (
      searched-Frame.backend_of u ∙ backend_of_left,
      ground (arith, count-append u searched.waiting_users (u ∷ []), beq_self u),
      ap (count u) (searched-Frame.users a) ∙ users_of_left,
    )

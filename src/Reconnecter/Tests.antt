-- ===== src/Reconnecter/Tests.antt =====
-- Two users who were online; the component connects twice.
use spectrum.Prelude.{◌≡◌, refl, false, List, [], ◌∷◌, ◌++◌, Text}
use spectrum.Reconnecter.{
  UsersReconnecter, new_reconnecter, reconnect_from, reconnect_next_user, handle_connected,
}
use spectrum.Reconnecter.Order.{here, next, tick, connected, backwards, reconnected-users}

abbrev online : List Text
online = (1 ∷ []) ∷ (2 ∷ []) ∷ []

abbrev first : UsersReconnecter
first = handle_connected false [] online new_reconnecter

abbrev second : UsersReconnecter
second = handle_connected false [] online (reconnect_next_user first)

reconnected-users_example : second.reconnected ++ backwards second.users ≡ backwards online
unfolding new_reconnecter handle_connected reconnect_next_user reconnect_from
reconnected-users_example =
    reconnected-users false [] online second
      (next (next (next here (connected new_reconnecter)) (tick first))
        (connected (reconnect_next_user first)))
      refl

both_told : second.reconnected ≡ (2 ∷ []) ∷ (1 ∷ []) ∷ []
unfolding new_reconnecter handle_connected reconnect_next_user reconnect_from
both_told = refl

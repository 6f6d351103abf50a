-- ===== src/Users/Leaving.antt =====
-- removeUser takes its user out of the map and creates nobody.
use spectrum.Prelude.{ℕ, ◌≡◌, Bool, false, none, some, text_eq, nat_eq}
use spectrum.Prelude.Maps.{lookup, erase, lookup-erase_self}
use spectrum.Users.State.{Host, Manager}
use spectrum.Users.Login.{handle_presence, handle_found, handle_absent}
use spectrum.Users.Removal.{disconnect_user, forget, leave, remove_user}
use spectrum.Users.Same.{
  Same, Same-trans, emit-Same, set_online-Same, greet_admin-Same, answer_offline-Same,
}
use spectrum.Users.Cache.{
  IsConsistent, if_keeps, get_user-absent, forget-IsConsistent, Same-IsConsistent,
}

module _ {J D : Type 0} (host : Host J D) (created : ℕ → Manager J D → Manager J D) where
  -- An unavailable presence of somebody who is not logged in logs nobody in.
  disconnect_user-Same :
      (j : J) (s : Manager J D)
      → IsConsistent host s
      → lookup (host.swift.bare j) s.users ≡ none
      → Same s (disconnect_user host created j none s)
  unfolding disconnect_user handle_presence handle_found handle_absent
  disconnect_user-Same j s ok h =
      simp (get_user-absent host (host.swift.bare j) s ok h)
        (if_keeps (Same s) _ (greet_admin-Same host j s) (answer_offline-Same host _ s))

  leave-Same :
      (j : J) (s : Manager J D)
      → IsConsistent host s
      → lookup (host.swift.bare j) s.users ≡ none
      → Same s (leave host created j s)
  unfolding leave
  leave-Same j s ok h =
      if_keeps (Same s) s.server_mode (disconnect_user-Same j s ok h) (emit-Same _ s)

  absent-forget :
      (u : ℕ) (s : Manager J D) → lookup (host.swift.bare (s.jid u)) (forget host u s).users ≡ none
  unfolding forget
  absent-forget u s = lookup-erase_self (host.swift.bare (s.jid u)) s.users

  pub remove_user-Same :
      (u : ℕ) (on_user_behalf : Bool) (s : Manager J D)
      → IsConsistent host s
      → lookup (host.swift.bare (s.jid u)) s.users ≡ some u
      → Same (forget host u s) (remove_user host created u on_user_behalf s)
  unfolding remove_user
  remove_user-Same u on_user_behalf s ok h =
      let left =
        leave-Same (s.jid u) (forget host u s) (forget-IsConsistent host u s ok h)
          (absent-forget u s) in
      Same-trans
        (if_keeps (Same (forget host u s)) on_user_behalf
          (Same-trans left (set_online-Same host (s.info u).id false _)) left)
        (emit-Same _ _)

  -- The User goes, and nobody else.
  pub users-remove_user :
      (u : ℕ) (on_user_behalf : Bool) (s : Manager J D)
      → IsConsistent host s
      → lookup (host.swift.bare (s.jid u)) s.users ≡ some u
      → (remove_user host created u on_user_behalf s).users
        ≡ erase (host.swift.bare (s.jid u)) s.users
  unfolding forget
  users-remove_user u on_user_behalf s ok h = (remove_user-Same u on_user_behalf s ok h).users

  pub remove_user-IsConsistent :
      (u : ℕ) (on_user_behalf : Bool) (s : Manager J D)
      → IsConsistent host s
      → lookup (host.swift.bare (s.jid u)) s.users ≡ some u
      → IsConsistent host (remove_user host created u on_user_behalf s)
  remove_user-IsConsistent u on_user_behalf s ok h =
      Same-IsConsistent host (remove_user-Same u on_user_behalf s ok h)
        (forget-IsConsistent host u s ok h)

-- ===== src/Users/Sound.antt =====
-- Every call of the manager keeps the map of users and the cached user in step.
use spectrum.Prelude.{
  ℕ, not, ◌≡◌, sym, ap, ◌∙◌, Bool, true, List, Option, none, some, Text, text_eq, nat_eq,
  if◌then◌else◌, Bool-cases, inl, inr, arith,
}
use spectrum.Prelude.Maps.{lookup}
use spectrum.Users.State.{Host, Manager, Removal}
use spectrum.Users.Removal.{
  switch_session, recreate_later, connect_found, connect_user, expire, handle_remove_timeout,
  is_user,
}
use spectrum.Users.Same.{Same}
use spectrum.Users.Cache.{
  IsConsistent, Same-IsConsistent, if_keeps, get_user-lookup, get_user-IsConsistent, users-get_user,
  handle_presence-IsConsistent, is_user-some, own_name,
}
use spectrum.Users.Leaving.{remove_user-IsConsistent}

module _ {J D : Type 0} (host : Host J D) (created : ℕ → Manager J D → Manager J D)
    (created-IsConsistent : (u : ℕ) (s : Manager J D)
      → IsConsistent host s
      → IsConsistent host (created u s)) where
  switch_session-Same : (j : J) (u : ℕ) (s : Manager J D) → Same s (switch_session host j u s)
  unfolding switch_session
  switch_session-Same j u s = ground arith

  recreate_later-Same :
      (name : Text) (u : ℕ) (s : Manager J D) → Same s (recreate_later host name u s)
  unfolding recreate_later
  recreate_later-Same name u s = ground arith

  connect_found-IsConsistent :
      (j : J) (found : Option ℕ) (s : Manager J D)
      → IsConsistent host s
      → IsConsistent host (connect_found host created j found s)
  unfolding connect_found
  connect_found-IsConsistent j none s ok =
      handle_presence-IsConsistent host created created-IsConsistent _ none s ok
  connect_found-IsConsistent j (some u) s ok = if_keeps (IsConsistent host) (not s.server_mode) ok (
      if_keeps (IsConsistent host) (s.is_connected u)
        (Same-IsConsistent host (switch_session-Same j u s) ok)
        (Same-IsConsistent host (recreate_later-Same (host.swift.bare j) u s) ok))

  pub connect_user-IsConsistent :
      (j : J) (s : Manager J D)
      → IsConsistent host s
      → IsConsistent host (connect_user host created j s)
  unfolding connect_user
  connect_user-IsConsistent j s ok = connect_found-IsConsistent j _ s ok

  expire-IsConsistent :
      (name : Text) (u : ℕ) (reconnect : Bool) (s : Manager J D)
      → IsConsistent host s
      → lookup (host.swift.bare (s.jid u)) s.users ≡ some u
      → IsConsistent host (expire host created name u reconnect s)
  unfolding expire
  expire-IsConsistent name u reconnect s ok h =
      let removed = remove_user-IsConsistent host created u true s ok h in
      if_keeps (IsConsistent host) reconnect
        (connect_user-IsConsistent (host.swift.parse name) _ removed) removed

  timeout_found :
      (name : Text) (u : ℕ) (reconnect : Bool) (found : Option ℕ) (s : Manager J D)
      → IsConsistent host s
      → lookup name s.users ≡ found
      → IsConsistent host (if is_user u found then expire host created name u reconnect s else s)
  timeout_found name u reconnect found s ok h = elim (Bool-cases (is_user u found)) [
    | inl e ↦ rw e (
        expire-IsConsistent name u reconnect s ok
          (own_name host name u s ok (h ∙ is_user-some u found e)))
    | inr e ↦ rw e ok
  ]

  slots-Same : (slots : List Removal) (s : Manager J D) → Same s (record s { removals = slots })
  slots-Same slots s = ground arith

  pub handle_remove_timeout-IsConsistent :
      (name : Text) (u : ℕ) (reconnect : Bool) (s : Manager J D)
      → IsConsistent host s
      → IsConsistent host (handle_remove_timeout host created name u reconnect s)
  unfolding handle_remove_timeout
  handle_remove_timeout-IsConsistent name u reconnect s ok =
      let slotless = Same-IsConsistent host (slots-Same _ s) ok in
      timeout_found name u reconnect _ _ (get_user-IsConsistent host name _ slotless)
        (ap (lookup name) (users-get_user host name _) ∙ sym (get_user-lookup host name _ slotless))

-- ===== src/Users/Expiry.antt =====
-- The end of a User: which one handleRemoveTimeout removes, and that removeAllUsers ends.
use spectrum.Prelude.{
  ℕ, zero, suc, ◌≤◌, ◌≡◌, refl, ap, ◌∙◌, Bool, true, false, ◌&&◌, [], ◌∷◌, Option, none, some, Text,
  text_eq, nat_eq, ◌==◌, beq_self, if◌then◌else◌, Bool-cases, inl, inr, Option-cases, length, arith,
}
use spectrum.Prelude.Maps.{Map, lookup, erase, lookup-erase}
use spectrum.Users.State.{Host, Manager}
use spectrum.Users.Login.{get_user, load_settings}
use spectrum.Users.Removal.{
  remove_user, expire, handle_remove_timeout, remove_first, remove_loop, remove_all_users, is_user,
  disconnect_slot,
}
use spectrum.Users.Cache.{
  IsConsistent, get_user-lookup, get_user-IsConsistent, users-get_user, Same-IsConsistent,
  is_user-some, own_name,
}
use spectrum.Users.Stanzas.{Reach}
use spectrum.Users.Reached.{Reach-IsConsistent}
use spectrum.Users.Leaving.{users-remove_user, remove_user-IsConsistent}

module _ {J D : Type 0} (host : Host J D) (created : ℕ → Manager J D → Manager J D) where
  effects-get_user : (name : Text) (s : Manager J D) → (get_user host name s).1.effects ≡ s.effects
  unfolding get_user load_settings
  effects-get_user name s = ground arith

  jid-get_user : (name : Text) (s : Manager J D) → (get_user host name s).1.jid ≡ s.jid
  unfolding get_user load_settings
  jid-get_user name s = ground arith

  expire_found :
      (name : Text) (u : ℕ) (found : Option ℕ) (s : Manager J D)
      → IsConsistent host s
      → lookup name s.users ≡ found
      → ((if is_user u found then expire host created name u false s else s).users
          ≡ (if is_user u found then erase name s.users else s.users))
  unfolding expire
  expire_found name u found s ok h = elim (Bool-cases (is_user u found)) [
    | inl e ↦
        let here : lookup name s.users ≡ some u = h ∙ is_user-some u found e in
        rw e (
          users-remove_user host created u true s ok (own_name host name u s ok here)
          ∙ ap (λ k. erase k s.users) (ok.named name u here))
    | inr e ↦ rw e refl
  ]

  timeout-users :
      (name : Text) (u : ℕ) (s : Manager J D)
      → IsConsistent host s
      → (handle_remove_timeout host created name u false s).users
        ≡ (if is_user u (lookup name s.users) then erase name s.users else s.users)
  unfolding handle_remove_timeout
  timeout-users name u s ok =
      let t = record s {
        removals = disconnect_slot (record { name = name; user = u; reconnect = false }) s.removals;
      } in
      let ok' : IsConsistent host t =
        Same-IsConsistent host (record { users = refl; cached = refl; next = refl; jid = refl })
          ok in
      rw (get_user-lookup host name t ok') (
        expire_found name u (lookup name s.users) _ (get_user-IsConsistent host name t ok')
          (ap (lookup name) (users-get_user host name t))
        ∙ ap (λ m. if is_user u (lookup name s.users) then erase name m else m)
            (users-get_user host name t))

  -- Whatever else was logged in under the name since the slot was connected, a timer for a User that
  -- is no longer there does nothing.
  timeout_stale :
      (name : Text) (u : ℕ) (reconnect : Bool) (s : Manager J D)
      → IsConsistent host s
      → is_user u (lookup name s.users) ≡ false
      → ((handle_remove_timeout host created name u reconnect s).users ≡ s.users)
        × ((handle_remove_timeout host created name u reconnect s).effects ≡ s.effects)
  unfolding handle_remove_timeout
  timeout_stale name u reconnect s ok h =
      let t = record s {
        removals =
            disconnect_slot (record { name = name; user = u; reconnect = reconnect }) s.removals;
      } in
      let ok' : IsConsistent host t =
        Same-IsConsistent host (record { users = refl; cached = refl; next = refl; jid = refl })
          ok in
      (
        rw (get_user-lookup host name t ok', h) (users-get_user host name t),
        rw (get_user-lookup host name t ok', h) (effects-get_user name t),
      )

  length-erase-le : (k : Text) (m : Map Text ℕ) → length (erase k m) ≤ length m
  unfolding erase
  length-erase-le k [] = omega arith
  length-erase-le k ((j, u) ∷ m) = ground (arith, length-erase-le k m)

  length-erase_first :
      (k : Text) (u : ℕ) (m : Map Text ℕ) → length (erase k ((k, u) ∷ m)) ≤ length m
  unfolding erase
  length-erase_first k u m = rw (beq_self k) (length-erase-le k m)

  lookup_first : (k : Text) (u : ℕ) (m : Map Text ℕ) → lookup k ((k, u) ∷ m) ≡ some u
  unfolding lookup
  lookup_first k u m = rw (beq_self k) refl

  -- What is left when all are removed.
  abbrev IsEmpty : Manager J D → Type 0
  IsEmpty s = (s.users ≡ []) × (s.cached_user ≡ none)

  no_users-IsEmpty : (s : Manager J D) → IsConsistent host s → s.users ≡ [] → IsEmpty s
  unfolding lookup
  no_users-IsEmpty s ok e = elim (Option-cases s.cached_user) [
    | inl c ↦ (e, c)
    | inr (u, c) ↦ (e, cc (c, ok.cached u c, ap (lookup (host.swift.bare (s.jid u))) e))
  ]

  remove_first_step :
      (rest : Manager J D → Manager J D) (fuel : ℕ) (on_user_behalf : Bool) (m : Map Text ℕ)
      (s : Manager J D)
      → ((t : Manager J D) → IsConsistent host t → length t.users ≤ fuel → IsEmpty (rest t))
      → IsConsistent host s
      → s.users ≡ m
      → length m ≤ suc fuel
      → IsEmpty (remove_first host created rest on_user_behalf m s)
  unfolding remove_first
  remove_first_step rest fuel b [] s ends ok e le = no_users-IsEmpty s ok e
  remove_first_step rest fuel b ((k, u) ∷ m) s ends ok e le =
      let here : lookup k s.users ≡ some u = ap (lookup k) e ∙ lookup_first k u m in
      let own = own_name host k u s ok here in
      let gone : (remove_user host created u b s).users ≡ erase k ((k, u) ∷ m) =
        users-remove_user host created u b s ok own
        ∙ ap (λ j. erase j s.users) (ok.named k u here)
        ∙ ap (erase k) e in
      ends _ (remove_user-IsConsistent host created u b s ok own)
        (rw gone (omega (arith, length-erase_first k u m)))

  no_entry : (m : Map Text ℕ) → length m ≤ 0 → m ≡ []
  no_entry [] h = refl
  no_entry (x ∷ m) h = absurd (omega arith)

  remove_loop-ends :
      (fuel : ℕ) (on_user_behalf : Bool) (s : Manager J D)
      → IsConsistent host s
      → length s.users ≤ fuel
      → IsEmpty (remove_loop host created fuel on_user_behalf s)
  unfolding remove_loop
  remove_loop-ends zero b s ok le = no_users-IsEmpty s ok (no_entry s.users le)
  remove_loop-ends (suc fuel) b s ok le =
      remove_first_step (remove_loop host created fuel b) fuel b s.users s (remove_loop-ends fuel b)
        ok refl le

  module _
      (created-Kept : (u : ℕ) (s : Manager J D)
        → IsConsistent host s
        → IsConsistent host (created u s)) where
    -- In a manager that any calls led to (the listeners keep it consistent when a user is created), a
    -- removal slot that fires for the User `u` under a name removes that name's entry exactly when `u`
    -- is the User under that name, and no other entry; when another User, or none, is there by now, it
    -- leaves the map and sends nothing, also if it was to reconnect.
    pub lookup-handle_remove_timeout :
        {s : Manager J D}
        → Reach host created s
        → (name : Text) (u : ℕ)
        → ((other : Text)
            → lookup other (handle_remove_timeout host created name u false s).users ≡ (
                if is_user u (lookup name s.users) && name == other
                then none
                else lookup other s.users))
          × ((reconnect : Bool)
              → is_user u (lookup name s.users) ≡ false
              → ((handle_remove_timeout host created name u reconnect s).users ≡ s.users)
                × ((handle_remove_timeout host created name u reconnect s).effects ≡ s.effects))
    lookup-handle_remove_timeout {s} r name u =
        let ok = Reach-IsConsistent host created created-Kept r in
        (
          λ other.
              ap (lookup other) (timeout-users name u s ok)
              ∙ erased other (is_user u (lookup name s.users)) s.users,
          λ reconnect h. timeout_stale name u reconnect s ok h,
        )
      where
        erased :
            (other : Text) (b : Bool) (m : Map Text ℕ)
            → lookup other (if b then erase name m else m)
              ≡ (if b && name == other then none else lookup other m)
        erased other true m = lookup-erase name other m
        erased other false m = refl

    -- In a manager that any calls led to (the listeners keep it consistent when a user is created),
    -- removeAllUsers ends after as many rounds as there are users, with no user in the map and none
    -- cached.
    pub remove_all_users-empty :
        {s : Manager J D}
        → Reach host created s
        → (on_user_behalf : Bool)
        → ((remove_all_users host created on_user_behalf s).users ≡ [])
          × ((remove_all_users host created on_user_behalf s).cached_user ≡ none)
    unfolding remove_all_users
    remove_all_users-empty {s} r b =
        remove_loop-ends (length s.users) b s (Reach-IsConsistent host created created-Kept r)
          (omega arith)

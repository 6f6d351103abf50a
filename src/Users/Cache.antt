-- ===== src/Users/Cache.antt =====
-- The cached user of getUser against the map of users.
use spectrum.Prelude.{
  ℕ, ◌<◌, ◌≡◌, refl, sym, ap, ◌∙◌, Bool, true, false, Option-cases, inl, inr, Option, none, some,
  Text, text_eq, nat_eq, beq_self, if◌then◌else◌, arith,
}
use spectrum.Prelude.Maps.{lookup, insert, lookup-insert, lookup-erase}
use spectrum.Presences.{PresenceType}
use spectrum.Users.State.{Host, UserInfo, Stanza, Manager}
use spectrum.Users.Login.{
  load_settings, is_cached, get_user, add_user, create_user, new_user, enter, log_in, handle_absent,
  handle_found, is_admin, refresh, handle_presence,
}
use spectrum.Users.Removal.{forget, is_user}
use spectrum.Users.Same.{
  Same, set_online-Same, admit-Keeps, answer_offline-Same, greet_admin-Same, deliver-Same,
}

pub if_keeps :
    {A : Type 0} (P : A → Type 0) (b : Bool) {x y : A} → P x → P y → P (if b then x else y)
if_keeps P true px py = px
if_keeps P false px py = py

pub is_user-some : (u : ℕ) (o : Option ℕ) → is_user u o ≡ true → o ≡ some u
is_user-some u none h = cc
is_user-some u (some v) h = ground arith

module _ {J D : Type 0} (host : Host J D) where
  -- Each user stands under his own name and was created, and the cached user is in the map.
  pub record IsConsistent (s : Manager J D) : Type 0 where
    pub named :
        (name : Text) (u : ℕ) → lookup name s.users ≡ some u → host.swift.bare (s.jid u) ≡ name
    pub created : (name : Text) (u : ℕ) → lookup name s.users ≡ some u → u < s.next
    pub cached :
        (u : ℕ) → s.cached_user ≡ some u → lookup (host.swift.bare (s.jid u)) s.users ≡ some u

  pub Same-IsConsistent : {s t : Manager J D} → Same s t → IsConsistent s → IsConsistent t
  Same-IsConsistent same ok = record {
    named = λ name u h. rw same.jid (ok.named name u (rw (← same.users) h));
    created = λ name u h. rw same.next (ok.created name u (rw (← same.users) h));
    cached = λ u h. rw (same.jid, same.users) (ok.cached u (sym same.cached ∙ h));
  }

  is_cached-some :
      (name : Text) (s : Manager J D) (u : ℕ)
      → is_cached host name s ≡ true
      → s.cached_user ≡ some u
      → name ≡ host.swift.bare (s.jid u)
  unfolding is_cached
  is_cached-some name s u h e = ground (arith, text_eq.same_iff name (host.swift.bare (s.jid u)))

  is_cached-none :
      (name : Text) (s : Manager J D) → s.cached_user ≡ none → is_cached host name s ≡ false
  unfolding is_cached
  is_cached-none name s e = ground arith

  load_settings-Same : (u : ℕ) (s : Manager J D) → Same s (load_settings host u s)
  unfolding load_settings
  load_settings-Same u s = ground arith

  -- The answer from the cache is the answer of the map.
  pub get_user-lookup :
      (name : Text) (s : Manager J D)
      → IsConsistent s
      → (get_user host name s).0 ≡ lookup name s.users
  unfolding get_user
  get_user-lookup name s ok = elim (Option-cases s.cached_user) [
    | inl e ↦ ground (arith, is_cached-none name s)
    | inr (u, e) ↦ ground (arith, is_cached-some name s u, ok.cached u e)
  ]

  put_cached-IsConsistent :
      (name : Text) (u : ℕ) (s : Manager J D)
      → IsConsistent s
      → lookup name s.users ≡ some u
      → IsConsistent (record s { cached_user = some u })
  put_cached-IsConsistent name u s ok h = record {
    named = ok.named;
    created = ok.created;
    cached = λ v e. ground (arith, ok.named name u h);
  }

  found-IsConsistent :
      (name : Text) (found : Option ℕ) (s : Manager J D)
      → IsConsistent s
      → lookup name s.users ≡ found
      → IsConsistent
          (elim found as (λ _. Option ℕ × Manager J D) [
            | none ↦ (none, s)
            | some u ↦ (some u, load_settings host u (record s { cached_user = some u }))
          ]).1
  found-IsConsistent name none s ok h = ok
  found-IsConsistent name (some u) s ok h =
      Same-IsConsistent (load_settings-Same u _) (put_cached-IsConsistent name u s ok h)

  pub get_user-IsConsistent :
      (name : Text) (s : Manager J D) → IsConsistent s → IsConsistent (get_user host name s).1
  unfolding get_user
  get_user-IsConsistent name s ok =
      ground (arith, found-IsConsistent name (lookup name s.users) s ok refl)

  pub get_user-absent :
      (name : Text) (s : Manager J D)
      → IsConsistent s
      → lookup name s.users ≡ none
      → get_user host name s ≡ (none, s)
  unfolding get_user
  get_user-absent name s ok h = elim (Option-cases s.cached_user) [
    | inl e ↦ ground (arith, is_cached-none name s)
    | inr (u, e) ↦ ground (arith, is_cached-some name s u, ok.cached u e)
  ]

  create_user-IsConsistent :
      (j : J) (res : UserInfo) (s : Manager J D)
      → IsConsistent s
      → IsConsistent (create_user host j res s)
  unfolding create_user
  create_user-IsConsistent j res s ok = record {
    named = λ name u h. ground (arith, ok.named name u h, ok.created name u h);
    created = λ name u h. ground (arith, ok.created name u h);
    cached = λ u h. ground (arith, ok.cached u h, ok.created (host.swift.bare (s.jid u)) u);
  }

  -- The User that is forgotten is the one in the map.
  pub forget-IsConsistent :
      (u : ℕ) (s : Manager J D)
      → IsConsistent s
      → lookup (host.swift.bare (s.jid u)) s.users ≡ some u
      → IsConsistent (forget host u s)
  unfolding forget
  forget-IsConsistent u s ok h = record {
    named = λ name v e.
        ground (arith, lookup-erase (host.swift.bare (s.jid u)) name s.users, ok.named name v);
    created = λ name v e.
        ground (arith, lookup-erase (host.swift.bare (s.jid u)) name s.users, ok.created name v);
    cached = λ v e. ground (
      arith,
      lookup-erase (host.swift.bare (s.jid u)) (host.swift.bare (s.jid v)) s.users,
      ok.cached v,
      text_eq.same_iff (host.swift.bare (s.jid u)) (host.swift.bare (s.jid v)),
    );
  }

  put-IsConsistent :
      (u : ℕ) (s : Manager J D)
      → IsConsistent s
      → u < s.next
      → lookup (host.swift.bare (s.jid u)) s.users ≡ none
      → IsConsistent (record s { users = insert (host.swift.bare (s.jid u)) u s.users })
  put-IsConsistent u s ok lt h = record {
    named = λ name v e. ground (
      arith,
      lookup-insert (host.swift.bare (s.jid u)) name u s.users,
      ok.named name v,
      text_eq.same_iff (host.swift.bare (s.jid u)) name,
    );
    created = λ name v e.
        ground (arith, lookup-insert (host.swift.bare (s.jid u)) name u s.users, ok.created name v);
    cached = λ v e. ground (
      arith,
      lookup-insert (host.swift.bare (s.jid u)) (host.swift.bare (s.jid v)) u s.users,
      ok.cached v e,
      text_eq.same_iff (host.swift.bare (s.jid u)) (host.swift.bare (s.jid v)),
    );
  }

  -- Under the name that it was looked up by, a User is found by his own name too.
  pub own_name :
      (name : Text) (u : ℕ) (s : Manager J D)
      → IsConsistent s
      → lookup name s.users ≡ some u
      → lookup (host.swift.bare (s.jid u)) s.users ≡ some u
  own_name name u s ok h = rw (ok.named name u h) h

  next-create_user :
      (j : J) (res : UserInfo) (s : Manager J D) → s.next < (create_user host j res s).next
  unfolding create_user
  next-create_user j res s = omega arith

  users-create_user :
      (j : J) (res : UserInfo) (s : Manager J D)
      → lookup (host.swift.bare j) s.users ≡ none
      → lookup
          (host.swift.bare ((create_user host j res s).jid s.next))
          (create_user host j res s).users
        ≡ none
  unfolding create_user
  users-create_user j res s h = simp (beq_self, host.swift.bare-to_bare) h

  pub users-get_user : (name : Text) (s : Manager J D) → (get_user host name s).1.users ≡ s.users
  unfolding get_user load_settings
  users-get_user name s = ground arith

  module _ (created : ℕ → Manager J D → Manager J D)
      (created-IsConsistent : (u : ℕ) (s : Manager J D)
        → IsConsistent s
        → IsConsistent (created u s)) where
    add_user-IsConsistent :
        (u : ℕ) (s : Manager J D)
        → IsConsistent s
        → u < s.next
        → lookup (host.swift.bare (s.jid u)) s.users ≡ none
        → IsConsistent (add_user host created u s)
    unfolding add_user
    add_user-IsConsistent u s ok lt h =
        created-IsConsistent u _
          (Same-IsConsistent (set_online-Same host _ true _) (put-IsConsistent u s ok lt h))

    new_user-IsConsistent :
        (j : J) (res : UserInfo) (s : Manager J D)
        → IsConsistent s
        → lookup (host.swift.bare j) s.users ≡ none
        → IsConsistent (new_user host created j res s)
    unfolding new_user
    new_user-IsConsistent j res s ok h =
        add_user-IsConsistent s.next (create_user host j res s)
          (create_user-IsConsistent j res s ok) (next-create_user j res s)
          (users-create_user j res s h)

    refresh-IsConsistent :
        (p : Stanza J) (highest : Option PresenceType) (s : Manager J D)
        → IsConsistent s
        → IsConsistent (refresh host p highest s)
    unfolding refresh
    refresh-IsConsistent p highest s ok =
        Same-IsConsistent (deliver-Same host p highest _ _)
          (get_user-IsConsistent (host.swift.bare p.sender) s ok)

    enter-IsConsistent :
        (p : Stanza J) (highest : Option PresenceType) (res : Option UserInfo) (s : Manager J D)
        → IsConsistent s
        → lookup (host.swift.bare p.sender) s.users ≡ none
        → IsConsistent (enter host created p highest res s)
    unfolding enter
    enter-IsConsistent p highest none s ok h = ok
    enter-IsConsistent p highest (some res) s ok h =
        refresh-IsConsistent p highest _ (new_user-IsConsistent p.sender res s ok h)

    handle_absent-IsConsistent :
        (p : Stanza J) (highest : Option PresenceType) (s : Manager J D)
        → IsConsistent s
        → lookup (host.swift.bare p.sender) s.users ≡ none
        → IsConsistent (handle_absent host created p highest s)
    unfolding handle_absent log_in
    handle_absent-IsConsistent p highest s ok h =
        if_keeps IsConsistent (is_admin host p.sender s)
          (Same-IsConsistent (greet_admin-Same host p.sender s) ok)
          (if_keeps IsConsistent _ (Same-IsConsistent (answer_offline-Same host p s) ok) (
            enter-IsConsistent p highest _ _ (Same-IsConsistent (admit-Keeps host p s) ok)
              (ap (lookup (host.swift.bare p.sender)) (admit-Keeps host p s).users ∙ h)))

    handle_found-IsConsistent :
        (p : Stanza J) (highest : Option PresenceType) (found : Option ℕ) (s : Manager J D)
        → IsConsistent s
        → lookup (host.swift.bare p.sender) s.users ≡ found
        → IsConsistent (handle_found host created p highest found s)
    unfolding handle_found
    handle_found-IsConsistent p highest none s ok h = handle_absent-IsConsistent p highest s ok h
    handle_found-IsConsistent p highest (some u) s ok h = refresh-IsConsistent p highest s ok

    pub handle_presence-IsConsistent :
        (p : Stanza J) (highest : Option PresenceType) (s : Manager J D)
        → IsConsistent s
        → IsConsistent (handle_presence host created p highest s)
    unfolding handle_presence
    handle_presence-IsConsistent p highest s ok =
        handle_found-IsConsistent p highest _ _
          (get_user-IsConsistent (host.swift.bare p.sender) s ok)
          (ap (lookup (host.swift.bare p.sender)) (users-get_user (host.swift.bare p.sender) s)
            ∙ sym (get_user-lookup (host.swift.bare p.sender) s ok))

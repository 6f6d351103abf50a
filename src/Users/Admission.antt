-- ===== src/Users/Admission.antt =====
-- Which logins are let through, and which sessions of the registry are answered by the checks.
use spectrum.Prelude.{
  ◌≡◌, refl, Bool, true, false, not, ◌&&◌, ◌||◌, [], none, some, text_eq, nat_eq, ◌==◌,
  if◌then◌else◌, Bool-cases, Option-cases, inl, inr, arith,
}
use spectrum.Prelude.Maps.{lookup, lookup-erase_self}
use spectrum.Registry.{Registry, on_password_invalid, get_user_password}
use spectrum.Users.State.{
  Host, UserInfo, Stanza, Manager, or_default, M, ◌>>=◌, enable_transport, one,
}
use spectrum.Users.Login.{
  find_registered, store_user, password_invalid, register_server, take_password, register_gateway,
  register_in, register, check_vip, check_enabled, admit, is_muc,
}
use spectrum.Names.{uin_of_node}

module _ {J D : Type 0} (host : Host J D) where
  -- The login of a session that was refused is off the registry's list.
  answered :
      (j : J) (r : Registry J)
      → lookup (host.swift.bare j) (on_password_invalid host.swift.bare j r).users ≡ none
  unfolding on_password_invalid
  answered j r = elim (Option-cases (lookup (host.swift.bare j) r.users)) [
    | inl e ↦ ground arith
    | inr (l, e) ↦ ground (arith, lookup-erase_self (host.swift.bare j) r.users)
  ]

  -- What a user logs in with: in server mode, the password of his session.
  abbrev credentials : Stanza J → UserInfo → Manager J D → UserInfo
  credentials p res s =
      if s.server_mode
      then record res {
        password = get_user_password host.swift.bare (host.swift.bare p.sender) s.registry;
      }
      else res

  register-registered :
      (p : Stanza J) (res : UserInfo) (s : Manager J D)
      → find_registered host (host.swift.bare p.sender) s ≡ some res
      → register host p s ≡ (some (credentials p res s), s)
  unfolding register register_in register_server register_gateway take_password
  register-registered p res s h = ground arith

  abbrev is_refused : UserInfo → Manager J D → Bool
  is_refused res s = s.vip_only && not res.vip

  check_vip-some :
      (j : J) (res : UserInfo) (s : Manager J D)
      → is_refused res s ≡ false
      → check_vip host j res s ≡ (some res, s)
  unfolding check_vip
  check_vip-some j res s h = ground arith

  check_vip-none :
      (j : J) (res : UserInfo) (s : Manager J D)
      → is_refused res s ≡ true
      → ((check_vip host j res s).0 ≡ none)
        × ((check_vip host j res s).1.registry ≡ (
            if s.server_mode then on_password_invalid host.swift.bare j s.registry else s.registry))
  unfolding check_vip password_invalid
  check_vip-none j res s h = ground arith

  -- The setting of a user that tells whether he wants the transport.
  abbrev enabled : UserInfo → D → Bool
  enabled res d = (host.backend.get_user_setting res.id enable_transport one d).0 == one

  check_enabled_lem :
      (res : UserInfo) (s : Manager J D) (d : D)
      → s.storage ≡ some d
      → ((check_enabled host res s).0 ≡ (if enabled res d then some res else none))
        × ((check_enabled host res s).1.registry ≡ s.registry)
  unfolding check_enabled
  check_enabled_lem res s d h = ground arith

  abbrev checks : J → UserInfo → M J D UserInfo
  checks j res = check_vip host j res >>= check_enabled host

  checks_lem :
      (j : J) (res : UserInfo) (s : Manager J D) (d : D)
      → s.storage ≡ some d
      → ((checks j res s).0 ≡ (if is_refused res s || not (enabled res d) then none else some res))
        × ((checks j res s).1.registry ≡ (
            if is_refused res s && s.server_mode
            then on_password_invalid host.swift.bare j s.registry
            else s.registry))
  checks_lem j res s d stored = elim (Bool-cases (is_refused res s)) [
    | inl e ↦ ground (arith, check_vip-none j res s e)
    | inr e ↦ ground (arith, check_vip-some j res s e, check_enabled_lem res s d stored)
  ]

  admit-checks :
      (p : Stanza J) (res : UserInfo) (s : Manager J D)
      → find_registered host (host.swift.bare p.sender) s ≡ some res
      → admit host p s ≡ checks p.sender (credentials p res s) s
  unfolding admit
  admit-checks p res s h = rw (register-registered p res s h) refl

  -- A user who stands in the database is let through exactly when he is a VIP or the service takes
  -- others too, and his setting enables the transport; he logs in with the data of the database, and
  -- in server mode with the password of his session. Of the refusals in server mode, only the one
  -- for VIPs answers the session: with the transport disabled, the registry stays as it is.
  pub admit-registered :
      (p : Stanza J) (res : UserInfo) (s : Manager J D) (d : D)
      → s.storage ≡ some d
      → host.backend.get_user (host.swift.bare p.sender) d ≡ some res
      → ((admit host p s).0 ≡ (
          if s.vip_only && not res.vip || not (enabled res d)
          then none
          else some (credentials p res s)))
        × ((admit host p s).1.registry ≡ (
            if s.vip_only && not res.vip && s.server_mode
            then on_password_invalid host.swift.bare p.sender s.registry
            else s.registry))
        × (lookup
              (host.swift.bare p.sender)
              (on_password_invalid host.swift.bare p.sender s.registry).users
            ≡ none)
  unfolding find_registered
  admit-registered p res s d stored found =
      let checked = checks_lem p.sender (credentials p res s) s d stored in
      let h : find_registered host (host.swift.bare p.sender) s ≡ some res = ground arith in
      rw (admit-checks p res s h) (elim (Bool-cases s.server_mode) [
        | inl on ↦ (ground (arith, checked), ground (arith, checked), answered p.sender s.registry)
        | inr off ↦ (ground (arith, checked), ground (arith, checked), answered p.sender s.registry)
      ])

  -- Whether a user who is not in the database is put into it, and as whom.
  abbrev pub registers : Manager J D → Bool
  registers s =
      if s.server_mode
      then not (or_default s.need_registration false && or_default s.need_password true)
      else s.auto_register || not (or_default s.need_registration true)

  abbrev pub newcomer : Stanza J → Manager J D → UserInfo
  newcomer p s = record host.blank {
    password = [];
    uin =
        if s.server_mode
        then uin_of_node (host.swift.node p.sender)
        else (if is_muc host p then host.swift.resource p.receiver else host.swift.full p.sender);
    jid = host.swift.bare p.sender;
  }

  register-unregistered :
      (p : Stanza J) (res : UserInfo) (s : Manager J D) (d : D)
      → s.storage ≡ some d
      → host.backend.get_user (host.swift.bare p.sender) d ≡ none
      → host.backend.get_user (host.swift.bare p.sender) (host.backend.set_user (newcomer p s) d)
        ≡ some res
      → registers s ≡ true
      → register host p s ≡ (
        some (credentials p res s),
        record s { storage = some (host.backend.set_user (newcomer p s) d) },
      )
  unfolding register register_in register_server register_gateway take_password store_user
      find_registered
  register-unregistered p res s d stored missing back h = elim (Bool-cases s.server_mode) [
    | inl on ↦ ground arith
    | inr off ↦ ground arith
  ]

  register_refused :
      (p : Stanza J) (s : Manager J D)
      → find_registered host (host.swift.bare p.sender) s ≡ none
      → registers s ≡ false
      → register host p s ≡ (none, if s.server_mode then password_invalid host p.sender s else s)
  unfolding register register_in register_server register_gateway
  register_refused p s missing h = elim (Bool-cases s.server_mode) [
    | inl on ↦ ground arith
    | inr off ↦ ground arith
  ]

  -- A user who is not in the database, where the database gives a user back that was put into it:
  -- if the configuration lets him register (in server mode unless registration and a password are
  -- both needed, as a gateway with auto_register or where no registration is needed), the login goes
  -- on as that of a registered user in the database with him in it; if not, he is not let through, the
  -- database stays as it is, and in server mode his session is answered.
  pub admit-unregistered :
      (p : Stanza J) (res : UserInfo) (s : Manager J D) (d : D)
      → s.storage ≡ some d
      → host.backend.get_user (host.swift.bare p.sender) d ≡ none
      → host.backend.get_user (host.swift.bare p.sender) (host.backend.set_user (newcomer p s) d)
        ≡ some res
      → (registers s ≡ true
          → admit host p s
            ≡ admit host p (record s { storage = some (host.backend.set_user (newcomer p s) d) }))
        × (registers s ≡ false
            → ((admit host p s).0 ≡ none)
              × ((admit host p s).1.storage ≡ s.storage)
              × ((admit host p s).1.registry ≡ (
                  if s.server_mode
                  then on_password_invalid host.swift.bare p.sender s.registry
                  else s.registry)))
  unfolding admit find_registered password_invalid
  admit-unregistered p res s d stored missing back = (
    λ allowed.
        rw
          (
            register-unregistered p res s d stored missing back allowed,
            register-registered p res
                (record s { storage = some (host.backend.set_user (newcomer p s) d) }) back,
          )
          refl,
    λ refused.
        let absent : find_registered host (host.swift.bare p.sender) s ≡ none = ground arith in
        rw (register_refused p s absent refused)
          (elim (Bool-cases s.server_mode) [ inl on ↦ ground arith | inr off ↦ ground arith ]),
  )

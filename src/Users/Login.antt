-- ===== src/Users/Login.antt =====
-- getUser, addUser and handlePresence (libtransport/UserManager.cpp). `created` is what the listeners
-- of onUserCreated do to the manager.
use spectrum.Prelude.{
  ℕ, ◌+◌, Bool, true, false, not, ◌&&◌, ◌||◌, [], ◌∷◌, ◌++◌, Option, none, some, Text, text_eq,
  nat_eq, ◌==◌, if◌then◌else◌, is_empty,
}
use spectrum.Prelude.Maps.{lookup, insert}
use spectrum.Prelude.Members.{contains}
use spectrum.Names.{uin_of_node}
use spectrum.Registry.{on_password_invalid, get_user_password}
use spectrum.Presences.{PresenceType, available, unavailable, probe, is_unavailable}
use spectrum.Users.State.{
  Host, UserInfo, Stanza, Effect, Manager, or_default, update, M, ◌>>=◌, enable_transport,
  stay_connected, one, starts_with_hash, emit, set_registry, set_storage,
}

module _ {J D : Type 0} (host : Host J D) where
  unfoldable pub load_settings : ℕ → Manager J D → Manager J D
  load_settings u s = elim s.storage [
    | none ↦ s
    | some d ↦ record s {
      info =
          update u
            (record (s.info u) {
              settings = host.backend.get_all_settings (s.info u).id d (s.info u).settings;
            })
            s.info;
    }
  ]

  unfoldable pub is_cached : Text → Manager J D → Bool
  is_cached name s = elim s.cached_user [
    | none ↦ false
    | some u ↦ name == host.swift.bare (s.jid u)
  ]

  unfoldable pub get_user : Text → Manager J D → Option ℕ × Manager J D
  get_user name s = if is_cached name s then (s.cached_user, s) else elim (lookup name s.users) [
    | none ↦ (none, s)
    | some u ↦ (some u, load_settings u (record s { cached_user = some u }))
  ]

  unfoldable pub set_online : ℕ → Bool → Manager J D → Manager J D
  set_online id on s = elim s.storage [
    | none ↦ s
    | some d ↦ set_storage (host.backend.set_user_online id on d) s
  ]

  unfoldable pub add_user : (ℕ → Manager J D → Manager J D) → ℕ → Manager J D → Manager J D
  add_user created u s = created u (
      set_online (s.info u).id true
        (record s { users = insert (host.swift.bare (s.jid u)) u s.users }))

  -- `m_storageBackend ? m_storageBackend->getUser(userkey, res) : false`
  unfoldable pub find_registered : Text → Manager J D → Option UserInfo
  find_registered name s = elim s.storage [ none ↦ none | some d ↦ host.backend.get_user name d ]

  -- A new registration, read again from the database for its id.
  unfoldable pub store_user : Text → UserInfo → M J D UserInfo
  store_user name res s = elim s.storage [
    | none ↦ (some res, s)
    | some d ↦ (
      host.backend.get_user name (host.backend.set_user res d),
      set_storage (host.backend.set_user res d) s,
    )
  ]

  unfoldable pub password_invalid : J → Manager J D → Manager J D
  password_invalid j s = set_registry (on_password_invalid host.swift.bare j s.registry) s

  unfoldable pub register_server : J → Option UserInfo → M J D UserInfo
  register_server j (some res) s = (some res, s)
  register_server j none s =
      if or_default s.need_registration false && or_default s.need_password true
      then (none, password_invalid j s)
      else store_user (host.swift.bare j)
          (record host.blank {
            password = [];
            uin = uin_of_node (host.swift.node j);
            jid = host.swift.bare j;
          })
          s

  unfoldable pub take_password : Text → UserInfo → M J D UserInfo
  take_password name res s =
      (some (record res { password = get_user_password host.swift.bare name s.registry }), s)

  -- A MUC payload, or a room name such as `#spectrum`.
  unfoldable pub is_muc : Stanza J → Bool
  is_muc p = p.has_muc || starts_with_hash (host.swift.node p.receiver)

  unfoldable pub register_gateway : Stanza J → Option UserInfo → M J D UserInfo
  register_gateway p (some res) s = (some res, s)
  register_gateway p none s =
      if s.auto_register || not (or_default s.need_registration true)
      then store_user (host.swift.bare p.sender)
          (record host.blank {
            password = [];
            uin = if is_muc p then host.swift.resource p.receiver else host.swift.full p.sender;
            jid = host.swift.bare p.sender;
          })
          s
      else (none, s)

  -- In server mode, or as a gateway.
  unfoldable pub register_in : Bool → Stanza J → Option UserInfo → M J D UserInfo
  register_in true p found =
      register_server p.sender found >>= take_password (host.swift.bare p.sender)
  register_in false p found = register_gateway p found

  unfoldable pub register : Stanza J → M J D UserInfo
  register p s = register_in s.server_mode p (find_registered (host.swift.bare p.sender) s) s

  unfoldable pub check_vip : J → UserInfo → M J D UserInfo
  check_vip j res s =
      if s.vip_only && not res.vip
      then (let told =
            if is_empty s.vip_message then s else emit (Effect.send_message s.vip_message j) s in
          (none, if s.server_mode then password_invalid j told else told))
      else (some res, s)

  unfoldable pub check_enabled : UserInfo → M J D UserInfo
  check_enabled res s = elim s.storage [
    | none ↦ (some res, s)
    | some d ↦
        let r = host.backend.get_user_setting res.id enable_transport one d in
        (if r.0 == one then some res else none, set_storage r.1 s)
  ]

  -- The checks of a login, up to where the User object is created.
  unfoldable pub admit : Stanza J → M J D UserInfo
  admit p = register p >>= check_vip p.sender >>= check_enabled

  unfoldable pub is_admin : J → Manager J D → Bool
  is_admin j s = s.server_mode && contains (host.swift.bare j) s.admin_jids

  unfoldable pub greet_admin : J → Manager J D → Manager J D
  greet_admin j s = emit (Effect.send_presence available j) (emit (Effect.send_admin_roster j) s)

  abbrev pub is_probe : PresenceType → Bool
  is_probe probe = true
  is_probe _ = false

  -- The answer to a presence of somebody who is not logged in and does not log in by it.
  unfoldable pub answer_offline : Stanza J → Manager J D → Manager J D
  answer_offline p s =
      let told = emit (Effect.send_presence unavailable p.sender) s in
      let asked =
        if is_probe p.kind then emit (Effect.send_presence probe p.sender) told else told in
      elim (find_registered (host.swift.bare p.sender) s) [
        | none ↦ asked
        | some res ↦ set_online res.id false asked
      ]

  -- A new User object.
  unfoldable pub create_user : J → UserInfo → Manager J D → Manager J D
  create_user j res s = emit (Effect.set_storage_backend s.next) (record s {
    next = s.next + 1;
    jid = update s.next (host.swift.to_bare j) s.jid;
    info = update s.next res s.info;
    is_connected = update s.next false s.is_connected;
  })

  unfoldable pub handle_removal_slot : Text → ℕ → Manager J D → Manager J D
  handle_removal_slot name u s = record s {
    removals = s.removals ++ record { name = name; user = u; reconnect = false } ∷ [];
  }

  -- `!highest || highest->getType() == Unavailable`
  unfoldable pub is_gone : Option PresenceType → Bool
  is_gone none = true
  is_gone (some k) = is_unavailable k

  unfoldable pub stays_connected : ℕ → Manager J D → Bool
  stays_connected u s = elim (lookup stay_connected (s.info u).settings) [
    | none ↦ false
    | some v ↦ v == one
  ]

  -- The presence of somebody who is logged in; `highest` is the oracle's presence of the sender.
  unfoldable pub deliver : Stanza J → Option PresenceType → Option ℕ → Manager J D → Manager J D
  deliver p highest none s = password_invalid p.sender s
  deliver p highest (some u) s =
      let s' = emit (Effect.to_user u p) s in
      if not (is_muc p) && is_unavailable p.kind && not (stays_connected u s') && is_gone highest
      then handle_removal_slot (host.swift.bare (s'.jid u)) u s'
      else s'

  -- "User can be handleDisconnected in addUser callback, so refresh the pointer"
  unfoldable pub refresh : Stanza J → Option PresenceType → Manager J D → Manager J D
  refresh p highest s =
      let again = get_user (host.swift.bare p.sender) s in deliver p highest again.0 again.1

  module _ (created : ℕ → Manager J D → Manager J D) where
    unfoldable pub new_user : J → UserInfo → Manager J D → Manager J D
    new_user j res s = add_user created s.next (create_user j res s)

    -- The login goes on where the checks let it through.
    unfoldable pub enter :
        Stanza J → Option PresenceType → Option UserInfo → Manager J D → Manager J D
    enter p highest none s = s
    enter p highest (some res) s = refresh p highest (new_user p.sender res s)

    unfoldable pub log_in : Stanza J → Option PresenceType → Manager J D → Manager J D
    log_in p highest s = enter p highest (admit p s).0 (admit p s).1

    unfoldable pub handle_absent : Stanza J → Option PresenceType → Manager J D → Manager J D
    handle_absent p highest s =
        if is_admin p.sender s
        then greet_admin p.sender s
        else if is_unavailable p.kind || is_probe p.kind
        then answer_offline p s
        else log_in p highest s

    unfoldable pub handle_found :
        Stanza J → Option PresenceType → Option ℕ → Manager J D → Manager J D
    handle_found p highest none s = handle_absent p highest s
    handle_found p highest (some u) s = refresh p highest s

    unfoldable pub handle_presence : Stanza J → Option PresenceType → Manager J D → Manager J D
    handle_presence p highest s =
        let found = get_user (host.swift.bare p.sender) s in handle_found p highest found.0 found.1

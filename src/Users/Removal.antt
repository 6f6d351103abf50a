-- ===== src/Users/Removal.antt =====
-- removeUser, handleRemoveTimeout, connectUser and disconnectUser (libtransport/UserManager.cpp).
-- connectUser and disconnectUser hand the frontend a presence of the user to the transport itself,
-- which Component::handlePresence (libtransport/Transport.cpp) passes to handlePresence at once.
use spectrum.Prelude.{
  ℕ, zero, suc, Bool, true, false, not, ◌&&◌, List, [], ◌∷◌, ◌++◌, Option, none, some, Text,
  text_eq, nat_eq, ◌==◌, if◌then◌else◌, length,
}
use spectrum.Prelude.Maps.{Map, lookup, erase}
use spectrum.Registry.{on_password_valid, get_user_password}
use spectrum.Presences.{PresenceType, available, unavailable}
use spectrum.Users.State.{Host, Stanza, Effect, Removal, Manager, emit, set_registry}
use spectrum.Users.Login.{get_user, handle_presence, set_online}

abbrev pub same_bool : Bool → Bool → Bool
same_bool true b = b
same_bool false b = not b

-- Slots are the same where all that is bound is the same.
unfoldable pub same_removal : Removal → Removal → Bool
same_removal a b = a.name == b.name && (a.user == b.user && same_bool a.reconnect b.reconnect)

unfoldable pub disconnect_slot : Removal → List Removal → List Removal
disconnect_slot r [] = []
disconnect_slot r (q ∷ qs) =
    let rest = disconnect_slot r qs in if same_removal q r then rest else q ∷ rest

-- "You have signed on from another location."
abbrev pub another_location : Text
another_location =
    89 ∷ 111 ∷ 117 ∷ 32 ∷ 104 ∷ 97 ∷ 118 ∷ 101 ∷ 32 ∷ 115 ∷ 105 ∷ 103 ∷ 110 ∷ 101 ∷ 100 ∷ 32 ∷ 111
    ∷ 110 ∷ 32 ∷ 102 ∷ 114 ∷ 111 ∷ 109 ∷ 32 ∷ 97 ∷ 110 ∷ 111 ∷ 116 ∷ 104 ∷ 101 ∷ 114 ∷ 32 ∷ 108
    ∷ 111 ∷ 99 ∷ 97 ∷ 116 ∷ 105 ∷ 111 ∷ 110 ∷ 46 ∷ []

abbrev pub is_user : ℕ → Option ℕ → Bool
is_user u none = false
is_user u (some v) = v == u

module _ {J D : Type 0} (host : Host J D) where
  unfoldable pub switch_session : J → ℕ → Manager J D → Manager J D
  switch_session j u s =
      if not
        (get_user_password host.swift.bare (host.swift.bare j) s.registry == (s.info u).password)
      then emit (Effect.remove_later j) s
      else (let told =
            if s.more_resources then s else emit (Effect.send_message another_location j) s in
          set_registry (on_password_valid host.swift.bare j told.registry) told)

  -- The User that is being deleted, or that logs in, is to be created again.
  unfoldable pub recreate_later : Text → ℕ → Manager J D → Manager J D
  recreate_later name u s = record s {
    removals =
        disconnect_slot (record { name = name; user = u; reconnect = false }) s.removals
        ++ record { name = name; user = u; reconnect = true } ∷ [];
  }

  unfoldable pub forget : ℕ → Manager J D → Manager J D
  forget u s = record s {
    users = erase (host.swift.bare (s.jid u)) s.users;
    cached_user = elim s.cached_user [ none ↦ none | some c ↦ if c == u then none else some c ];
  }

module _ {J D : Type 0} (host : Host J D) (created : ℕ → Manager J D → Manager J D) where
  abbrev pub to_transport : PresenceType → J → Manager J D → Stanza J
  to_transport k j s = record { sender = j; receiver = s.own_jid; kind = k; has_muc = false }

  unfoldable pub disconnect_user : J → Option PresenceType → Manager J D → Manager J D
  disconnect_user j highest s =
      handle_presence host created (to_transport unavailable j s) highest s

  unfoldable pub connect_found : J → Option ℕ → Manager J D → Manager J D
  connect_found j none s = handle_presence host created (to_transport available j s) none s
  connect_found j (some u) s =
      if not s.server_mode
      then s
      else if s.is_connected u
      then switch_session host j u s
      else recreate_later host (host.swift.bare j) u s

  unfoldable pub connect_user : J → Manager J D → Manager J D
  connect_user j s = connect_found j (lookup (host.swift.bare j) s.users) s

  -- The user's presences go: by an unavailable presence, or from the oracle.
  unfoldable pub leave : J → Manager J D → Manager J D
  leave j s =
      if s.server_mode
      then disconnect_user j none s
      else emit (Effect.clear_presences (host.swift.bare j)) s

  unfoldable pub remove_user : ℕ → Bool → Manager J D → Manager J D
  remove_user u on_user_behalf s =
      let left = leave (s.jid u) (forget host u s) in
      emit (Effect.user_destroyed u)
        (if on_user_behalf then set_online host (s.info u).id false left else left)

  unfoldable pub remove_first :
      (Manager J D → Manager J D) → Bool → Map Text ℕ → Manager J D → Manager J D
  remove_first rest on_user_behalf [] s = s
  remove_first rest on_user_behalf ((k, u) ∷ _) s = rest (remove_user u on_user_behalf s)

  unfoldable pub remove_loop : ℕ → Bool → Manager J D → Manager J D
  remove_loop zero on_user_behalf s = s
  remove_loop (suc fuel) on_user_behalf s =
      remove_first (remove_loop fuel on_user_behalf) on_user_behalf s.users s

  unfoldable pub remove_all_users : Bool → Manager J D → Manager J D
  remove_all_users on_user_behalf s = remove_loop (length s.users) on_user_behalf s

  -- The User that the slot was connected for is still the one in the map.
  unfoldable pub expire : Text → ℕ → Bool → Manager J D → Manager J D
  expire name u reconnect s =
      let removed = remove_user u true s in
      if reconnect then connect_user (host.swift.parse name) removed else removed

  unfoldable pub handle_remove_timeout : Text → ℕ → Bool → Manager J D → Manager J D
  handle_remove_timeout name u reconnect s =
      let found = get_user host name (record s {
        removals =
            disconnect_slot (record { name = name; user = u; reconnect = reconnect }) s.removals;
      }) in
      if is_user u found.0 then expire name u reconnect found.1 else found.1

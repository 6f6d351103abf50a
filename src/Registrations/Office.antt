-- ===== src/Registrations/Office.antt =====
-- registerUser, unregisterUser (libtransport/UserRegistration.cpp), and the answers of the user's
-- server (spectrum/src/frontends/xmpp/XMPPUserRegistration.cpp). The database is the one that the
-- UserManager has, too.
use spectrum.Prelude.{
  ℕ, Bool, true, false, not, ◌||◌, List, [], ◌∷◌, ◌++◌, Option, none, some, Text, nat_eq, text_eq,
  ◌==◌, if◌then◌else◌, map,
}
use spectrum.Names.{replace_last}
use spectrum.Presences.{PresenceType, subscribe, unsubscribe, unsubscribed}
use spectrum.Users.State as Users
use spectrum.Users.State.{UserInfo, Manager}
use spectrum.Users.Login.{get_user}
use spectrum.Users.Removal.{remove_user}

pub record BuddyInfo : Type 0 where
  pub legacy_name : Text
  pub escaped : Bool

-- The functions of StorageBackend that registration calls besides the manager's, and from Swift: the
-- domain of a JID and the escaping of a node.
pub record Outside (J D : Type 0) : Type 0 where
  pub get_buddies : ℕ → D → List BuddyInfo
  pub remove_row : ℕ → D → D
  pub get_legacy_network_users : D → List Text
  pub domain : J → Text
  pub escape : Text → Text

-- What goes to the frontend: a request for the roster of a user; a presence to a user, from a node of
-- the transport or, with `[]`, from the transport itself; an item of the user's roster that is set to
-- be there or removed, `none` for the transport's; a notification.
pub data Sent (J : Type 0) : Type 0 where
  roster_request : Text → Sent J
  presence : PresenceType → Text → Text → Sent J
  set_roster : Bool → Option J → Text → Sent J
  notify : Bool → Text → Text → Sent J

-- A signal onUserRegistered, or onUserUnregistered, with the user's JID.
pub data Event : Type 0 where
  registered unregistered : Text → Event

pub record Office (J D : Type 0) : Type 0 where
  pub manager : Manager J D
  pub database : D
  -- registration.notify_jid
  pub notify_jids : List Text
  pub sent : List (Sent J)
  pub events : List Event

abbrev or_else : {A : Type 0} → Option A → A → A
or_else none a = a
or_else (some b) a = b

module _ {J D : Type 0} where
  abbrev pub send : List (Sent J) → Office J D → Office J D
  send xs o = record o { sent = o.sent ++ xs }

  abbrev pub signal : Event → Office J D → Office J D
  signal x o = record o { events = o.events ++ x ∷ [] }

  -- A call of the manager, which has the same database.
  abbrev pub in_manager : (Manager J D → Manager J D) → Office J D → Office J D
  in_manager f o =
      let m = f (record o.manager { storage = some o.database }) in
      record o { manager = m; database = or_else m.storage o.database }

abbrev pub is_registered : Option UserInfo → Bool
is_registered none = false
is_registered (some res) = true

module _ {J D : Type 0} (outside : Outside J D) where
  unfoldable pub node_of : BuddyInfo → Text
  node_of b = if b.escaped then outside.escape b.legacy_name else replace_last 64 37 b.legacy_name

  unfoldable pub part_from : List BuddyInfo → Text → List (Sent J)
  part_from [] name = []
  part_from (b ∷ bs) name =
      Sent.presence unsubscribe (node_of b) name
      ∷ Sent.presence unsubscribed (node_of b) name
      ∷ part_from bs name

  -- The items of the transport's domain.
  unfoldable pub drop_items : Text → List J → Text → List (Sent J)
  drop_items own [] name = []
  drop_items own (j ∷ js) name =
      let rest = drop_items own js name in
      if outside.domain j == own then Sent.set_roster false (some j) name ∷ rest else rest

module _ {J D : Type 0} (host : Users.Host J D) (created : ℕ → Manager J D → Manager J D)
    (outside : Outside J D) where
  unfoldable pub register_user : UserInfo → Bool → Office J D → Bool × Office J D
  register_user row allow_password_change o =
      let known = is_registered (host.backend.get_user row.jid o.database) in
      (
        not known,
        if not known || allow_password_change
            then signal (Event.registered row.jid) (
                send (Sent.roster_request row.jid ∷ [])
                  (record o { database = host.backend.set_user row o.database }))
            else o,
      )

  unfoldable pub remove_found : Option ℕ → Manager J D → Manager J D
  remove_found none s = s
  remove_found (some u) s = remove_user host created u true s

  -- `m_userManager->getUser` and, if there is one, `removeUser`.
  unfoldable pub disconnect : Text → Office J D → Office J D
  disconnect name =
      in_manager (λ s. let found = get_user host name s in remove_found found.0 found.1)

  abbrev pub erase_row : ℕ → Office J D → Office J D
  erase_row id o = record o { database = outside.remove_row id o.database }

  unfoldable pub unregister_found : Text → Option UserInfo → Office J D → Bool × Office J D
  unregister_found name none o = (false, o)
  unregister_found name (some res) o = (
    true,
    signal (Event.unregistered res.jid)
        (send (Sent.roster_request res.jid ∷ []) (disconnect name (erase_row res.id o))),
  )

  unfoldable pub unregister_user : Text → Office J D → Bool × Office J D
  unregister_user name o = unregister_found name (host.backend.get_user name o.database) o

  abbrev notify_all : Bool → Text → List Text → List (Sent J)
  notify_all is_new name jids = map (Sent.notify is_new name) jids

  -- The answer to the request for a roster: its JIDs, or `none` where the server does not support it.
  unfoldable pub handle_register_remote_roster_response :
      UserInfo → Option (List J) → Office J D → Office J D
  handle_register_remote_roster_response row answer o =
      let told =
        send
          (elim answer [
            | none ↦ Sent.presence subscribe [] row.jid ∷ []
            | some items ↦ Sent.set_roster true none row.jid ∷ []
          ])
          o in
      send (notify_all true row.jid o.notify_jids) (signal (Event.registered row.jid) told)

  unfoldable pub handle_unregister_remote_roster_response :
      UserInfo → Option (List J) → Office J D → Office J D
  handle_unregister_remote_roster_response res answer o =
      let told =
        send
          (elim answer [
            | none ↦ part_from outside (outside.get_buddies res.id o.database) res.jid
            | some items ↦ drop_items outside (outside.domain o.manager.own_jid) items res.jid
          ])
          o in
      send
        ((elim answer [
          | none ↦ Sent.presence unsubscribe [] res.jid ∷ Sent.presence unsubscribed [] res.jid ∷ []
          | some items ↦ Sent.set_roster false none res.jid ∷ []
        ])
          ++ notify_all false res.jid o.notify_jids)
        (disconnect res.jid (erase_row res.id told))

-- ===== src/Registrations/Farewell.antt =====
-- What the buddies of a user who unregisters are told.
use spectrum.Prelude.{
  ℕ, ◌≡◌, refl, ◌∙◌, false, List, [], ◌∷◌, ◌++◌, Option, none, some, Text, nat_eq, text_eq, map,
  append_assoc, arith,
}
use spectrum.Presences.{unsubscribe, unsubscribed}
use spectrum.Users.State as Users
use spectrum.Users.State.{UserInfo, Manager}
use spectrum.Users.Login.{get_user}
use spectrum.Registrations.Office.{
  Outside, Sent, Office, remove_found, disconnect, unregister_found, unregister_user, part_from,
  drop_items, handle_unregister_remote_roster_response,
}

module _ {J D : Type 0} (host : Users.Host J D) (created : ℕ → Manager J D → Manager J D)
    (outside : Outside J D) where
  get_user-none :
      (name : Text) (s : Manager J D)
      → (get_user host name s).0 ≡ none
      → (get_user host name s).1 ≡ s
  unfolding get_user
  get_user-none name s h = ground arith

  -- Who is not logged in is not disconnected.
  disconnect-absent :
      (name : Text) (o : Office J D)
      → (get_user host name (record o.manager { storage = some o.database })).0 ≡ none
      → disconnect host created outside name o
        ≡ record o { manager = record o.manager { storage = some o.database } }
  unfolding disconnect remove_found
  disconnect-absent name o h =
      let s = record o.manager { storage = some o.database } in
      rw h (rw (get_user-none name s h) refl)

  -- What a user's server is asked for, or the buddies are told, when the user leaves.
  abbrev pub farewell : Office J D → Text → Option (List J) → List (Sent J)
  farewell o name answer =
      (elim answer [
        | none ↦ []
        | some items ↦ drop_items outside (outside.domain o.manager.own_jid) items name
      ])
      ++ ((elim answer [
        | none ↦ Sent.presence unsubscribe [] name ∷ Sent.presence unsubscribed [] name ∷ []
        | some items ↦ Sent.set_roster false none name ∷ []
      ])
          ++ map (Sent.notify false name) o.notify_jids)

  answered :
      (res : UserInfo) (answer : Option (List J)) (o : Office J D)
      → outside.get_buddies res.id o.database ≡ []
      → (handle_unregister_remote_roster_response host created outside res answer o).sent
        ≡ o.sent ++ farewell o res.jid answer
  unfolding handle_unregister_remote_roster_response part_from disconnect
  answered res none o gone = rw gone (append_assoc o.sent [] _)
  answered res (some items) o gone = append_assoc o.sent _ _

  pub unregister_user-farewell :
      ((id : ℕ) (d : D) → outside.get_buddies id (outside.remove_row id d) ≡ [])
      → (name : Text) (res : UserInfo) (o : Office J D)
      → host.backend.get_user name o.database ≡ some res
      → (get_user host name
          (record o.manager { storage = some (outside.remove_row res.id o.database) })).0
        ≡ none
      → (answer : Option (List J))
      → (handle_unregister_remote_roster_response host created outside res answer
          (unregister_user host created outside name o).1).sent
        ≡ o.sent ++ Sent.roster_request res.jid ∷ farewell o res.jid answer
  unfolding unregister_user unregister_found
  unregister_user-farewell gone name res o e absent answer =
      let p : Office J D = record o { database = outside.remove_row res.id o.database } in
      rw e (
        rw (disconnect-absent name p absent) (
          answered res answer _ (gone res.id o.database)
          ∙ append_assoc o.sent (Sent.roster_request res.jid ∷ []) _))

-- ===== src/Payloads/State.antt =====
-- The parts that a message of a backend can reach. A User is a number, as in the UserManager.
use spectrum.Prelude.{ℕ, List, [], ◌∷◌, ◌++◌, Option, none, some, Text, nat_eq, ◌==◌, if◌then◌else◌}
use spectrum.Users.State as Users
use spectrum.Users.State.{Manager}
use spectrum.Users.Login.{get_user}
use spectrum.Conversations.Manager.{ConversationManager}
use spectrum.Sessions.State.{User, with_conversations}
use spectrum.Roster.Store.{Roster}

-- What else the server does: a user who is disconnected with an error, and a request to subscribe from
-- the JID of a buddy.
pub data Told (J : Type 0) : Type 0 where
  disconnected : ℕ → Text → ℕ → Told J
  subscribe : ℕ → J → Told J

pub record Desk (J D : Type 0) : Type 0 where
  pub manager : Manager J D
  pub session : ℕ → User J
  pub roster : ℕ → Roster
  pub told : List (Told J)

module _ {J D : Type 0} where
  abbrev pub tell : Told J → Desk J D → Desk J D
  tell x s = record s { told = s.told ++ x ∷ [] }

  abbrev pub update_session : ℕ → User J → Desk J D → Desk J D
  update_session u x s = record s { session = λ v. if u == v then x else s.session v }

  abbrev pub update_roster : ℕ → Roster → Desk J D → Desk J D
  update_roster u x s = record s { roster = λ v. if u == v then x else s.roster v }

  abbrev pub conversations_of : ℕ → Desk J D → ConversationManager J
  conversations_of u s = (s.session u).conversations

  abbrev pub set_conversations : ℕ → ConversationManager J → Desk J D → Desk J D
  set_conversations u c s = update_session u (with_conversations c (s.session u)) s

  -- `f` at the user who was found; nothing where there is none.
  unfoldable pub for_found : (ℕ → Desk J D → Desk J D) → Option ℕ → Desk J D → Desk J D
  for_found f none s = s
  for_found f (some u) s = f u s

  unfoldable pub with_user : Users.Host J D → Text → (ℕ → Desk J D → Desk J D) → Desk J D → Desk J D
  with_user host name f s =
      let found = get_user host name s.manager in
      for_found f found.0 (record s { manager = found.1 })

-- ===== src/Registry.antt =====
-- UserRegistry (libtransport/UserRegistry.cpp): the users whose login is being checked. A session is
-- an address; `J` is Swift's JID, and `bare` is what `toBare().toString()` makes of it. What the
-- registry tells a session or its own listeners is an event, newest last; what those do then are
-- later calls.
pub mod Answers
pub mod Lookup
mod Tests
use spectrum.Prelude.{
  ℕ, Bool, true, false, List, [], ◌∷◌, ◌++◌, Option, none, some, Text, text_eq, nat_eq, ◌==◌,
  if◌then◌else◌,
}
use spectrum.Prelude.Maps.{Map, lookup, insert, erase}
use spectrum.Prelude.Members.{contains}

pub record Login : Type 0 where
  pub password : Text
  pub session : ℕ

pub record Settings : Type 0 where
  pub admin_jids : List Text
  pub admin_password : Text

pub data Event (J : Type 0) : Type 0 where
  password_valid : ℕ → Event J
  password_invalid : ℕ → Event J
  connect_user disconnect_user : J → Event J

pub record Registry (J : Type 0) : Type 0 where
  pub settings : Settings
  pub open settings use *
  pub users : Map Text Login
  pub in_remove_later : Bool
  pub events : List (Event J)

module _ {J : Type 0} (bare : J → Text) where
  abbrev pub emit : Event J → Registry J → Registry J
  emit x s = record s { events = s.events ++ x ∷ [] }

  abbrev pub set_users : Map Text Login → Registry J → Registry J
  set_users m s = record s { users = m }

  -- An earlier session of the same user is answered and replaced.
  unfoldable pub replace_session : Text → ℕ → Registry J → Registry J
  replace_session key n s = elim (lookup key s.users) [
    | none ↦ s
    | some l ↦
        emit (Event.password_invalid l.session)
          (set_users (insert key (record l { session = n }) s.users) s)
  ]

  unfoldable pub is_valid_user_password : J → ℕ → Text → Registry J → Registry J
  is_valid_user_password j n password s =
      if contains (bare j) s.admin_jids
      then (if password == s.admin_password
          then emit (Event.password_valid n) s
          else emit (Event.password_invalid n) s)
      else let s' = replace_session (bare j) n s in
        emit (Event.connect_user j)
          (set_users (insert (bare j) (record { password = password; session = n }) s'.users) s')

  -- The entry goes where its session is the one that stops.
  unfoldable pub stop_session : Text → ℕ → Registry J → Registry J
  stop_session key n s = elim (lookup key s.users) [
    | none ↦ s
    | some l ↦ if l.session == n then set_users (erase key s.users) s else s
  ]

  unfoldable pub stop_login : J → ℕ → Registry J → Registry J
  stop_login j n s =
      let s' = stop_session (bare j) n s in
      if s.in_remove_later then s' else emit (Event.disconnect_user j) s'

  unfoldable pub on_password_valid : J → Registry J → Registry J
  on_password_valid j s = elim (lookup (bare j) s.users) [
    | none ↦ s
    | some l ↦ set_users (erase (bare j) s.users) (emit (Event.password_valid l.session) s)
  ]

  unfoldable pub on_password_invalid : J → Registry J → Registry J
  on_password_invalid j s = elim (lookup (bare j) s.users) [
    | none ↦ s
    | some l ↦ set_users (erase (bare j) s.users) (emit (Event.password_invalid l.session) s)
  ]

  unfoldable pub handle_remove_timeout : J → Registry J → Registry J
  handle_remove_timeout j s = record (on_password_invalid j (record s { in_remove_later = true })) {
    in_remove_later = false;
  }

  unfoldable pub get_user_password : Text → Registry J → Text
  get_user_password key s = elim (lookup key s.users) [ none ↦ [] | some l ↦ l.password ]

-- The calls that a registry gets.
pub data Call (J : Type 0) : Type 0 where
  login : J → ℕ → Text → Call J
  stop : J → ℕ → Call J
  valid invalid timeout : J → Call J

module _ {J : Type 0} (bare : J → Text) where
  unfoldable pub call : Call J → Registry J → Registry J
  call (Call.login j n p) = is_valid_user_password bare j n p
  call (Call.stop j n) = stop_login bare j n
  call (Call.valid j) = on_password_valid bare j
  call (Call.invalid j) = on_password_invalid bare j
  call (Call.timeout j) = handle_remove_timeout bare j

  unfoldable pub run : List (Call J) → Registry J → Registry J
  run [] s = s
  run (c ∷ cs) s = run cs (call c s)

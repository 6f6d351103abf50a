-- ===== src/Users/State.antt =====
-- The state of a UserManager. `J` is Swift's JID and `D` a database behind the interface
-- StorageBackend; a User object is a number, its address. Calls of the frontend, of a User and of
-- the presence oracle are effects, newest last.
use spectrum.Prelude.{
  ℕ, Bool, false, List, [], ◌∷◌, ◌++◌, Option, none, some, Text, ◌≡◌, text_eq, nat_eq, ◌==◌,
  if◌then◌else◌,
}
use spectrum.Prelude.Maps.{Map}
use spectrum.Registry.{Registry}
use spectrum.Presences.{PresenceType}

pub record UserInfo : Type 0 where
  pub id : ℕ
  pub jid : Text
  pub uin : Text
  pub password : Text
  pub vip : Bool
  pub settings : Map Text Text

-- `unset` where the configuration has no value and the code gives a default.
pub record Config : Type 0 where
  pub server_mode : Bool
  pub auto_register : Bool
  pub vip_only : Bool
  pub more_resources : Bool
  pub need_registration : Option Bool
  pub need_password : Option Bool
  pub vip_message : Text
  pub admin_jids : List Text

-- The virtual functions of StorageBackend that the manager calls.
pub record StorageBackend (D : Type 0) : Type 0 where
  pub get_user : Text → D → Option UserInfo
  pub set_user : UserInfo → D → D
  pub set_user_online : ℕ → Bool → D → D
  -- Writes the settings that are stored into those that are given.
  pub get_all_settings : ℕ → D → Map Text Text → Map Text Text
  -- With the value that is taken, and written, where there is none.
  pub get_user_setting : ℕ → Text → Text → D → Text × D

-- The bare JID as a text and as a JID, the JID of a text, the parts of a JID, and the whole.
pub record Jid (J : Type 0) : Type 0 where
  pub bare : J → Text
  pub to_bare : J → J
  pub bare-to_bare : (j : J) → bare (to_bare j) ≡ bare j
  pub parse : Text → J
  pub bare-parse : (j : J) → bare (parse (bare j)) ≡ bare j
  pub node : J → Text
  pub resource : J → Text
  pub full : J → Text

-- What the manager stands on; `blank` is what `UserInfo res;` holds before it is written to.
pub record Host (J D : Type 0) : Type 0 where
  pub swift : Jid J
  pub backend : StorageBackend D
  pub blank : UserInfo

-- A presence as the manager reads it; `has_muc` tells whether it has a MUC payload.
pub record Stanza (J : Type 0) : Type 0 where
  pub sender : J
  pub receiver : J
  pub kind : PresenceType
  pub has_muc : Bool

pub data Effect (J : Type 0) : Type 0 where
  send_admin_roster : J → Effect J
  send_presence : PresenceType → J → Effect J
  send_message : Text → J → Effect J
  set_storage_backend : ℕ → Effect J
  to_user : ℕ → Stanza J → Effect J
  to_conversations : ℕ → Effect J
  to_roster : ℕ → J → Effect J
  user_destroyed : ℕ → Effect J
  clear_presences : Text → Effect J
  message_to_backend : Effect J
  remove_later : J → Effect J
  disco_info : ℕ → J → Effect J
  subscription : ℕ → Stanza J → Effect J

-- A slot of the removal timer: `bind(&UserManager::handleRemoveTimeout, this, jid, u, reconnect)`.
pub record Removal : Type 0 where
  pub name : Text
  pub user : ℕ
  pub reconnect : Bool

pub record Manager (J D : Type 0) : Type 0 where
  pub config : Config
  pub open config use *
  pub own_jid : J
  pub users : Map Text ℕ
  pub cached_user : Option ℕ
  pub next : ℕ
  pub jid : ℕ → J
  pub info : ℕ → UserInfo
  pub is_connected : ℕ → Bool
  pub storage : Option D
  pub registry : Registry J
  pub removals : List Removal
  pub effects : List (Effect J)

abbrev pub or_default : Option Bool → Bool → Bool
or_default none b = b
or_default (some c) b = c

abbrev pub update {ℓ} : {A : Type ℓ} → ℕ → A → (ℕ → A) → ℕ → A
update u x f v = if u == v then x else f v

-- A login goes on with a value or stops.
abbrev pub M : Type 0 → Type 0 → Type 0 → Type 0
M J D A = Manager J D → Option A × Manager J D

abbrev pub go_on :
    {J D A B : Type 0} → (A → M J D B) → Option A → Manager J D → Option B × Manager J D
go_on f none s = (none, s)
go_on f (some a) s = f a s

infixl 5 ◌>>=◌
abbrev pub ◌>>=◌ : {J D A B : Type 0} → M J D A → (A → M J D B) → M J D B
◌>>=◌ m f s = go_on f (m s).0 (m s).1

abbrev pub enable_transport : Text
enable_transport =
    101 ∷ 110 ∷ 97 ∷ 98 ∷ 108 ∷ 101 ∷ 95 ∷ 116 ∷ 114 ∷ 97 ∷ 110 ∷ 115 ∷ 112 ∷ 111 ∷ 114 ∷ 116 ∷ []

abbrev pub stay_connected : Text
stay_connected = 115 ∷ 116 ∷ 97 ∷ 121 ∷ 95 ∷ 99 ∷ 111 ∷ 110 ∷ 110 ∷ 101 ∷ 99 ∷ 116 ∷ 101 ∷ 100 ∷ []

abbrev pub one : Text
one = 49 ∷ []

module _ {J D : Type 0} where
  abbrev pub emit : Effect J → Manager J D → Manager J D
  emit x s = record s { effects = s.effects ++ x ∷ [] }

  abbrev pub set_registry : Registry J → Manager J D → Manager J D
  set_registry r s = record s { registry = r }

  abbrev pub set_storage : D → Manager J D → Manager J D
  set_storage d s = record s { storage = some d }

-- `*node.c_str() == '#'`
unfoldable pub starts_with_hash : Text → Bool
starts_with_hash [] = false
starts_with_hash (c ∷ s) = c == 35

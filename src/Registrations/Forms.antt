-- ===== src/Registrations/Forms.antt =====
-- handleSetRequest (spectrum/src/frontends/xmpp/XMPPUserRegistration.cpp). The language and the
-- encoding are not kept.
use spectrum.Prelude.{
  ℕ, Bool, true, false, not, ◌&&◌, ◌||◌, List, [], ◌∷◌, Option, none, some, Text, nat_eq, text_eq,
  ◌==◌, if◌then◌else◌, is_empty,
}
use spectrum.Prelude.Members.{contains}
use spectrum.Users.State as Users
use spectrum.Users.State.{UserInfo, Manager}
use spectrum.Registrations.Office.{Outside, Office, register_user, unregister_user}

-- The fields of a form, `[]` where one is missing.
pub record Form : Type 0 where
  pub username : Text
  pub password : Text
  pub unregister : Text
  pub local_username : Text
  pub local_password : Text

pub record Payload : Type 0 where
  pub username : Option Text
  pub password : Option Text
  pub remove : Bool
  pub form : Option Form

pub record Config : Type 0 where
  pub protocol : Text
  pub public : Bool
  pub allowed_servers : List Text
  pub require_local_account : Bool
  pub need_password : Bool
  pub username_mask : Text
  pub allowed_usernames : Text

-- Swift's parser of JIDs, for whether a name is one whose bare form is the sender's; the login at the
-- local account's server; boost::replace_all of `$username`; and boost's regular expressions.
pub record Checks (J : Type 0) : Type 0 where
  pub is_self : Text → J → Bool
  pub local_login : Text → Text → Bool
  pub fill_mask : Text → Text → Text
  pub regex_match : Text → Text → Bool

pub data ErrorKind : Type 0 where
  bad_request not_authorized not_acceptable : ErrorKind

pub data Reply : Type 0 where
  error : ErrorKind → Reply
  result : Reply

-- "irc"
abbrev pub irc : Text
irc = 105 ∷ 114 ∷ 99 ∷ []

-- "true"
abbrev yes : Text
yes = 116 ∷ 114 ∷ 117 ∷ 101 ∷ []

abbrev unless_empty : Text → Option Text → Option Text
unless_empty value old = if is_empty value then old else some value

unfoldable pub fill_in : Option Form → Payload → Payload
fill_in none p = p
fill_in (some f) p = record p {
  username = unless_empty f.username p.username;
  password = unless_empty f.password p.password;
  remove = p.remove || (f.unregister == (49 ∷ []) || f.unregister == yes);
}

-- The local account of a form.
unfoldable pub local_account : Option Form → Text × Text
local_account none = ([], [])
local_account (some f) = (f.local_username, f.local_password)

abbrev is_missing : Option Text → Bool
is_missing none = true
is_missing (some x) = false

abbrev pub or_empty : Option Text → Text
or_empty none = []
or_empty (some x) = x

unfoldable pub masked : {J : Type 0} → Checks J → Config → Text → Text
masked checks config username =
    if is_empty config.username_mask
    then username
    else checks.fill_mask config.username_mask username

module _ {J D : Type 0} (host : Users.Host J D) (created : ℕ → Manager J D → Manager J D)
    (outside : Outside J D) (checks : Checks J) (config : Config) where
  unfoldable pub store_found : Text → Text → Text → Option UserInfo → Office J D → Office J D
  store_found name uin password none o =
      (register_user host created outside
        (record host.blank { id = 0; jid = name; uin = uin; password = password; vip = false })
        false o).1
  store_found name uin password (some res) o = record o {
    database =
        host.backend.set_user (record res { jid = name; uin = uin; password = password })
          o.database;
  }

  -- With a username that is not empty.
  unfoldable pub check_username :
      J → Text → Text → Option UserInfo → Office J D → Reply × Office J D
  check_username j username password found o =
      if checks.is_self username j
      then (error not_acceptable, o)
      else if not config.need_password
          && contains username (outside.get_legacy_network_users o.database)
      then (error not_acceptable, o)
      else if not (is_empty config.allowed_usernames)
          && not (checks.regex_match config.allowed_usernames (masked checks config username))
      then (error not_acceptable, o)
      else (
        result,
        store_found (host.swift.bare j) (masked checks config username) password found o,
      )

  unfoldable pub check_payload : J → Payload → Option UserInfo → Office J D → Reply × Office J D
  check_payload j p found o =
      if is_missing p.username || (is_missing p.password && config.need_password)
      then (error not_acceptable, o)
      else if is_empty (or_empty p.username)
      then (error not_acceptable, o)
      else check_username j (or_empty p.username) (or_empty p.password) found o

  unfoldable pub check_local : J → Payload → Option UserInfo → Office J D → Reply × Office J D
  check_local j p found o =
      let account = local_account p.form in
      if config.require_local_account && (is_empty account.0 || is_empty account.1)
      then (result, o)
      else if config.require_local_account && not (checks.local_login account.0 account.1)
      then (error not_authorized, o)
      else check_payload j p found o

  unfoldable pub handle_set_request : J → Payload → Office J D → Reply × Office J D
  handle_set_request j payload o =
      if config.protocol == irc
      then (error bad_request, o)
      else if not config.public && not (contains (outside.domain j) config.allowed_servers)
      then (error bad_request, o)
      else let name = host.swift.bare j in
        let found = host.backend.get_user name o.database in
        let p = fill_in payload.form payload in
        if p.remove
        then (result, (unregister_user host created outside name o).1)
        else check_local j p found o

-- ===== src/Irc/State.antt =====
-- The state of an IRCNetworkPlugin: its sessions, and what it told the server, newest last.
use spectrum.Prelude.{ℕ, Bool, List, [], ◌∷◌, ◌++◌, Option, Text}
use spectrum.Prelude.Int.{ℤ}
use spectrum.Prelude.Maps.{Map}
use spectrum.Irc.Text.{Address}

-- Commands to the IRC network.
pub data Command : Type 0 where
  message action topic : Text → Text → Command
  join : Text → Text → Command
  part : Text → Command
  whois : Text → Command
  away : Text → Command

-- What identifies a user to the network: PASS, or a line that is sent after the connection.
pub data Login : Type 0 where
  no_login : Login
  password identify : Text → Login

pub record Session : Type 0 where
  pub user : Text
  pub suffix : Text
  pub address : Address
  pub nick_name : Text
  pub login : Login
  pub is_open : Bool
  pub rooms : ℤ
  pub pms : Map Text Text
  pub whois : Map Text Text
  pub commands : List Command

pub data Told : Type 0 where
  connected : Text → Told
  room_message : Text → Text → Text → Text → Told
  nickname_changed : Text → Text → Text → Told
  -- user, old nickname, room, new nickname.
  participant_changed : Text → Text → Text → Text → Told
  vcard : Text → ℕ → Text → Told
  -- A session that was closed, with the commands that it was sent.
  closed : Session → Told

-- `sessions` has an entry with no session where the code has looked up a name with operator[].
pub record Plugin : Type 0 where
  pub server_mode : Bool
  pub send_pass : Bool
  pub identify_format : Text
  pub servers : List Text
  pub current_server : ℕ
  pub sessions : Map Text (Option Session)
  pub told : List Told

abbrev pub tell : Told → Plugin → Plugin
tell x s = record s { told = s.told ++ x ∷ [] }

abbrev pub send_command : Command → Session → Session
send_command c session = record session { commands = session.commands ++ c ∷ [] }

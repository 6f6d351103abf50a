-- ===== src/Sessions/State.antt =====
-- The state of a User, and the signals and calls it makes, newest last. `J` is Swift's JID. The
-- listeners only forward what they are told: `onRawPresenceReceived` rewrites the presence that it
-- gets with features.rawxml, which is taken to be off.
use spectrum.Prelude.{
  ℕ, Bool, true, false, ◌&&◌, ◌||◌, List, [], ◌∷◌, ◌++◌, Option, none, some, Text, nat_eq, text_eq,
  ◌==◌,
}
use spectrum.Presences.{PresenceType}
use spectrum.Names.{jid_to_legacy_name}
use spectrum.Users.State.{starts_with_hash}
use spectrum.Conversations.State.{Transport}
use spectrum.Conversations.Manager.{ConversationManager}

-- A presence of the user: its MUC payload with the password in it, whether it has a sha-1 hash of
-- capabilities, and the hash of the photo in a vCard update.
pub record Stanza (J : Type 0) : Type 0 where
  pub sender : J
  pub receiver : J
  pub kind : PresenceType
  pub muc : Option Text
  pub has_caps : Bool
  pub photo_hash : Option Text

pub data Signal (J : Type 0) : Type 0 where
  ready_to_connect : Signal J
  raw_presence : Stanza J → Signal J
  -- onRoomJoined: who, the room, the nickname and the password.
  room_joined : J → Text → Text → Text → Signal J
  room_left : Text → Signal J
  presence_changed : PresenceType → Signal J
  request_vcard : Signal J
  -- A presence from the transport's JID: its type and its status.
  send_presence : PresenceType → Text → J → Signal J
  -- A copy of the user's highest presence from the transport's JID.
  send_highest : J → Signal J
  send_unavailable_presences : J → Signal J
  send_current_presences : J → Signal J

-- What a User takes from Swift and from the component.
pub record Host (J : Type 0) : Type 0 where
  pub transport : Transport J
  pub node : J → Text
  pub full : J → Text
  pub unescape : Text → Text

-- What others answer during a call: the presences of the user that the oracle knows, the type of the
-- highest one, and whether the frontend knows the capabilities of a JID.
pub record Around (J : Type 0) : Type 0 where
  pub presences : List (J × PresenceType)
  pub highest : Option PresenceType
  pub capabilities : J → Bool

-- `photo` is the setting `photohash`, none without a storage backend; `stay_connected` tells whether
-- that setting is "1".
pub record User (J : Type 0) : Type 0 where
  pub connected : Bool
  pub ready_for_connect : Bool
  pub reconnect_counter : ℕ
  pub ignore_disconnect : Bool
  pub timer : Bool
  pub resources : ℕ
  pub cache_messages : Bool
  pub photo : Option Text
  pub stay_connected : Bool
  pub joined_rooms : List (Stanza J)
  pub conversations : ConversationManager J
  pub signals : List (Signal J)

-- `s.find(t) == 0`
abbrev starts_with : Text → Text → Bool
starts_with [] s = true
starts_with (c ∷ t) [] = false
starts_with (c ∷ t) (d ∷ s) = c == d && starts_with t s

-- `s.find(t) != npos`
unfoldable pub find : Text → Text → Bool
find t [] = starts_with t []
find t (c ∷ s) = starts_with t (c ∷ s) || find t s

-- "\40", an escaped `@`.
abbrev pub escaped_at : Text
escaped_at = 92 ∷ 52 ∷ 48 ∷ []

-- "Connecting"
abbrev pub connecting : Text
connecting = 67 ∷ 111 ∷ 110 ∷ 110 ∷ 101 ∷ 99 ∷ 116 ∷ 105 ∷ 110 ∷ 103 ∷ []

abbrev pub has_muc : Option Text → Bool
has_muc none = false
has_muc (some p) = true

abbrev pub password_of : Option Text → Text
password_of none = []
password_of (some p) = p

module _ {J : Type 0} where
  abbrev pub emit : Signal J → User J → User J
  emit x u = record u { signals = u.signals ++ x ∷ [] }

  abbrev pub with_conversations : ConversationManager J → User J → User J
  with_conversations s u = record u { conversations = s }

  module _ (host : Host J) where
    -- `Buddy::JIDToLegacyName`, without a user.
    unfoldable pub room_of : J → Text
    room_of j = jid_to_legacy_name host.transport.escape host.unescape (host.node j)

    unfoldable pub is_muc : Stanza J → Bool
    is_muc p = has_muc p.muc || starts_with_hash (host.node p.receiver)

    abbrev pub joins : Stanza J → Signal J
    joins p =
        Signal.room_joined p.sender (room_of p.receiver) (host.transport.resource p.receiver)
          (password_of p.muc)

-- ===== src/Conversations/State.antt =====
-- The state of a conversation, and the stanzas it sends, newest last. `J` is Swift's JID.
use spectrum.Prelude.{
  ℕ, Bool, true, false, not, ◌&&◌, List, [], ◌∷◌, ◌++◌, Option, none, Text, nat_eq, text_eq,
  if◌then◌else◌, is_empty,
}
use spectrum.Prelude.Maps.{Map}
use spectrum.Presences.{PresenceType}
use spectrum.Names.{replace_last}

pub data MessageType : Type 0 where
  normal chat groupchat headline error : MessageType

-- What a carbon or a privilege message wraps.
pub data Wrapper : Type 0 where
  carbon_sent carbon_received privilege : Wrapper

-- The wrapped stanzas' wrappers, types and addresses stand in `wrapped`, the outermost first; `body`
-- and `subject` are those of the innermost.
pub record Message (J : Type 0) : Type 0 where
  pub kind : MessageType
  pub sender : J
  pub receiver : J
  pub is_delayed : Bool
  pub wrapped : List (Wrapper × MessageType × J × J)
  pub body : Text
  pub subject : Text

pub data RoomError : Type 0 where
  conflict : RoomError
  not_authorized item_not_found : Text → RoomError

-- A participant's presence; `show` 5 is StatusShow::None.
pub record RoomPresence (J : Type 0) : Type 0 where
  pub sender : J
  pub kind : PresenceType
  pub show : ℕ
  pub status : Text
  pub failure : Option RoomError
  pub codes : List ℕ
  pub is_moderator : Bool
  pub item_nick : Text
  pub icon : Text

pub record Participant (J : Type 0) : Type 0 where
  pub presence : RoomPresence J
  pub alias : Text

pub data Sent (J : Type 0) : Type 0 where
  message : Message J → Sent J
  presence : J → RoomPresence J → Sent J
  leave_room : Text → Sent J

pub record Conversation (J : Type 0) : Type 0 where
  pub legacy_name : Text
  pub nickname : Text
  pub room : Text
  pub muc : Bool
  pub jid : J
  pub jids : List J
  pub sent_initial_presence : Bool
  pub nickname_changed : Bool
  pub muc_escaping : Bool
  pub sent_initial_subject : Bool
  pub subject : Option (Message J)
  pub cached_messages : List (Message J)
  pub participants : Map Text (Participant J)
  pub sent : List (Sent J)

-- What a conversation takes from Swift and from the component: bare JIDs, the domain of a JID, whether
-- a JID is valid, escaped nodes, the JID of a node and a resource at the transport, and its own JID.
pub record Transport (J : Type 0) : Type 0 where
  pub to_bare : J → J
  pub domain : J → J
  pub is_bare : J → Bool
  pub is_valid : J → Bool
  pub resource : J → Text
  pub escape : Text → Text
  pub at : Text → Text → J
  pub own_jid : J
  pub server_mode : Bool
  pub jid_escaping : Bool
  pub raw_xml : Bool

module _ {J : Type 0} where
  abbrev pub emit : Sent J → Conversation J → Conversation J
  emit x c = record c { sent = c.sent ++ x ∷ [] }

  unfoldable pub set_room : Text → Conversation J → Conversation J
  set_room room c = record c { room = room; legacy_name = room ++ 47 ∷ c.legacy_name }

  unfoldable pub set_nickname : Text → Conversation J → Conversation J
  set_nickname nickname c = record c {
    nickname = nickname;
    nickname_changed =
        if not (is_empty nickname) && not (text_eq.same c.nickname nickname)
        then true
        else c.nickname_changed;
  }

module _ {J : Type 0} (transport : Transport J) where
  -- The node of a room.
  unfoldable pub room_node : Text → Conversation J → Text
  room_node name c = transport.escape (if c.muc_escaping then name else replace_last 64 37 name)

  unfoldable pub new_conversation : J → Text → Bool → Conversation J
  new_conversation user_jid name muc = record {
    legacy_name = name;
    nickname = [];
    room = [];
    muc = muc;
    jid = transport.to_bare user_jid;
    jids = [];
    sent_initial_presence = transport.raw_xml;
    nickname_changed = false;
    muc_escaping = false;
    sent_initial_subject = false;
    subject = none;
    cached_messages = [];
    participants = [];
    sent = [];
  }

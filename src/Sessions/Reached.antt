-- ===== src/Sessions/Reached.antt =====
-- A User over his life: any presences of his clients, answers to capability requests and login
-- timeouts, logins on the legacy network and rooms that are left.
use spectrum.Prelude.{refl, Bool, false, [], Option, Text, Eq}
use spectrum.Conversations.Manager.{ConversationManager}
use spectrum.Sessions.State.{Stanza, Host, Around, User}
use spectrum.Sessions.Rooms.{leave_room}
use spectrum.Sessions.Presence.{handle_presence, set_connected, on_connecting_timeout}
use spectrum.Sessions.Joined.{Inv, leave_room-Inv}
use spectrum.Sessions.Kept.{handle_presence-Inv, set_connected-Inv, on_connecting_timeout-Inv}

-- User::User.
unfoldable pub new_user : {J : Type 0} → ConversationManager J → Option Text → Bool → User J
new_user conversations photo stay_connected = record {
  connected = false;
  ready_for_connect = false;
  reconnect_counter = 0;
  ignore_disconnect = false;
  timer = false;
  resources = 0;
  cache_messages = false;
  photo = photo;
  stay_connected = stay_connected;
  joined_rooms = [];
  conversations = conversations;
  signals = [];
}

module _ {J : Type 0} (host : Host J) ⦃same : Eq J⦄ where
  -- One call from outside; what the others answer in it is any.
  pub data Step : User J → User J → Type 0 where
    presence :
        (around : Around J) (invalid : J) (p : Stanza J) (u : User J)
        → Step u (handle_presence host around invalid false p u)
    timeout : (around : Around J) (u : User J) → Step u (on_connecting_timeout host around u)
    connected :
        (around : Around J) (invalid : J) (on : Bool) (u : User J)
        → Step u (set_connected host around invalid on u)
    room_left : (room : Text) (u : User J) → Step u (leave_room host room u)

  pub data Reach (s : User J) : User J → Type 0 where
    here : Reach s s
    next : {u v : User J} → Reach s u → Step u v → Reach s v

  pub Step-Inv : {u v : User J} → Step u v → Inv host u → Inv host v
  Step-Inv (presence around invalid p u) i = handle_presence-Inv host around invalid false p u i
  Step-Inv (timeout around u) i = on_connecting_timeout-Inv host around u i
  Step-Inv (connected around invalid on u) i = set_connected-Inv host around invalid on u i
  Step-Inv (room_left room u) i = leave_room-Inv host room u i

  new_user-Inv :
      (s : ConversationManager J) (photo : Option Text) (stay : Bool)
      → Inv host (new_user s photo stay)
  unfolding new_user
  new_user-Inv s photo stay = record { joined = tt; login = refl }

  -- Whatever happens to a new User, until the network disconnects him: the login is signalled once,
  -- when he becomes ready, and never again; each presence that he keeps to rejoin a room is one that
  -- joins a room, and no two of them have the same receiver.
  pub new_user-Reach-Inv :
      (s : ConversationManager J) (photo : Option Text) (stay : Bool) (u : User J)
      → Reach (new_user s photo stay) u
      → Inv host u
  new_user-Reach-Inv s photo stay u here = new_user-Inv s photo stay
  new_user-Reach-Inv s photo stay u (next r st) = Step-Inv st (new_user-Reach-Inv s photo stay _ r)

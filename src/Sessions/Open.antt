-- ===== src/Sessions/Open.antt =====
-- Which rooms have a conversation, and that joining a room closes none.
use spectrum.Prelude.{
  ℕ, zero, suc, ◌≡◌, refl, ap, ◌∙◌, Bool, true, false, Option, none, some, Text, nat_eq, text_eq,
  Eq, length, arith,
}
use spectrum.Prelude.Maps.{Map, lookup, insert, lookup-insert, lookup-insert_self}
use spectrum.Conversations.State.{new_conversation, set_nickname}
use spectrum.Conversations.Manager.{
  ConversationManager, get_within, get_conversation, add_conversation, split_slash,
}
use spectrum.Sessions.State.{Stanza, Host, User, room_of}
use spectrum.Sessions.Rooms.{new_room}

abbrev pub is_some : Option ℕ → Bool
is_some none = false
is_some (some a) = true

pub get_within-found :
    (fuel a : ℕ) (name : Text) (m : Map Text ℕ)
    → lookup name m ≡ some a
    → is_some (get_within fuel name m) ≡ true
unfolding get_within
get_within-found zero a name m h = ground arith
get_within-found (suc fuel) a name m h = ground arith

-- A name that is found is found when there is one more entry.
pub get_within-insert :
    (fuel a : ℕ) (key name : Text) (m : Map Text ℕ)
    → is_some (get_within fuel name m) ≡ true
    → is_some (get_within fuel name (insert key a m)) ≡ true
unfolding get_within
get_within-insert zero a key name m h = ground (arith, lookup-insert key name a m)
get_within-insert (suc fuel) a key name m h =
    go (λ nick. get_within-insert fuel a key nick m) (split_slash name) refl
  where
    go :
        ((nick : Text)
          → is_some (get_within fuel nick m) ≡ true
          → is_some (get_within fuel nick (insert key a m)) ≡ true)
        → (s : Option (Text × Text)) → split_slash name ≡ s
        → is_some (get_within (suc fuel) name (insert key a m)) ≡ true
    go ih none e = ground (arith, lookup-insert key name a m)
    go ih (some (room, nick)) e =
        ground (arith, lookup-insert key name a m, lookup-insert key room a m, ih nick)

module _ {J : Type 0} where
  -- Whether a name has a conversation.
  abbrev pub is_open : Text → User J → Bool
  is_open name u = is_some (get_conversation name u.conversations)

  module _ (host : Host J) ⦃same : Eq J⦄ where
    pub new_room-convs :
        (p : Stanza J) (s : ConversationManager J)
        → (new_room host p s).convs ≡ insert (room_of host p.receiver) s.next s.convs
    unfolding new_room add_conversation new_conversation set_nickname
    new_room-convs p s = ground arith

    pub new_room-open :
        (p : Stanza J) (s : ConversationManager J)
        → is_some (get_conversation (room_of host p.receiver) (new_room host p s)) ≡ true
    unfolding get_conversation
    new_room-open p s =
        let room = room_of host p.receiver in
        get_within-found (length room) s.next room (new_room host p s).convs
          (ap (lookup room) (new_room-convs p s) ∙ lookup-insert_self room s.next s.convs)

    pub new_room-keeps :
        (name : Text) (p : Stanza J) (s : ConversationManager J)
        → is_some (get_conversation name s) ≡ true
        → is_some (get_conversation name (new_room host p s)) ≡ true
    unfolding get_conversation
    new_room-keeps name p s h =
        rw (new_room-convs p s)
          (get_within-insert (length name) s.next (room_of host p.receiver) name s.convs h)

-- ===== src/Sessions/Leaving.antt =====
-- What a User keeps of a room that he left (libtransport/User.cpp, leaveRoom).
use spectrum.Prelude.{
  ℕ, ◌-◌, ◌≡◌, refl, ap, ◌∙◌, List, [], ◌∷◌, map, Option, none, some, Text, text_eq, ◌==◌,
  if◌then◌else◌, arith,
}
use spectrum.Prelude.Members.{count}
use spectrum.Conversations.Manager.{get_conversation}
use spectrum.Sessions.State.{Stanza, Host, User, room_of}
use spectrum.Sessions.Rooms.{drop_joined, close_room, leave_room}

module _ {J : Type 0} (host : Host J) where
  -- The rooms that are joined again after a login, one for each presence.
  abbrev pub kept_rooms : List (Stanza J) → List Text
  kept_rooms ps = map (λ p. room_of host p.receiver) ps

  kept_rooms-drop_joined :
      (room name : Text) (ps : List (Stanza J))
      → count name (kept_rooms (drop_joined host room ps))
        ≡ count name (kept_rooms ps) - (if room == name then 1 else 0)
  unfolding drop_joined
  kept_rooms-drop_joined room name [] = ground arith
  kept_rooms-drop_joined room name (p ∷ ps) = ground (
    arith,
    text_eq.same_iff (room_of host p.receiver) room,
    text_eq.same_iff (room_of host p.receiver) name,
    text_eq.same_iff room name,
    kept_rooms-drop_joined room name ps,
  )

  close_room-joined_rooms :
      (a : Option ℕ) (u : User J) → (close_room host a u).joined_rooms ≡ u.joined_rooms
  unfolding close_room
  close_room-joined_rooms none u = refl
  close_room-joined_rooms (some a) u = refl

  -- Leaving a room takes one presence for it out of those that are kept, if there is one, and none for
  -- another room, so a room that was joined under two nicknames is still kept.
  pub kept_rooms-leave_room :
      (room name : Text) (u : User J)
      → count name (kept_rooms (leave_room host room u).joined_rooms)
        ≡ count name (kept_rooms u.joined_rooms) - (if room == name then 1 else 0)
  unfolding leave_room
  kept_rooms-leave_room room name u =
      ap (λ ps. count name (kept_rooms ps))
        (close_room-joined_rooms (get_conversation room u.conversations) _)
      ∙ kept_rooms-drop_joined room name u.joined_rooms

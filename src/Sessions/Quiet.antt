-- ===== src/Sessions/Quiet.antt =====
-- The signals that matter for rooms and for the login, and the parts of handlePresence that send none
-- of them.
use spectrum.Prelude.{
  ℕ, ◌+◌, ◌≡◌, refl, ap, ◌∙◌, Bool, true, false, List, [], ◌∷◌, ◌++◌, append-nil, Option, none,
  some, Text, nat_eq, text_eq, Eq, if◌then◌else◌, arith,
}
use spectrum.Presences.{PresenceType, unavailable, is_unavailable}
use spectrum.Conversations.Manager.{clear_jids}
use spectrum.Sessions.State.{Stanza, Signal, Host, Around, User, emit}
use spectrum.Sessions.Presence.{
  handle_photo, tell_state, tell_clients, send_current_presence, answer_client, greet_new,
  change_presence, set_cache_messages, stay, change_to,
}

module _ {J : Type 0} where
  -- How often onReadyToConnect was raised.
  abbrev pub readies : List (Signal J) → ℕ
  readies [] = 0
  readies (Signal.ready_to_connect ∷ xs) = 1 + readies xs
  readies (_ ∷ xs) = readies xs

  -- The joins that were sent to the backend.
  abbrev pub room_joins : List (Signal J) → List (Signal J)
  room_joins [] = []
  room_joins (Signal.room_joined j room nick password ∷ xs) =
      Signal.room_joined j room nick password ∷ room_joins xs
  room_joins (_ ∷ xs) = room_joins xs

  pub readies-append : (xs ys : List (Signal J)) → readies (xs ++ ys) ≡ readies xs + readies ys
  readies-append [] ys = omega arith
  readies-append (Signal.ready_to_connect ∷ xs) ys = omega (arith, readies-append xs ys)
  readies-append (_ ∷ xs) ys = readies-append xs ys

  pub room_joins-append :
      (xs ys : List (Signal J)) → room_joins (xs ++ ys) ≡ room_joins xs ++ room_joins ys
  room_joins-append [] ys = refl
  room_joins-append (Signal.room_joined j room nick password ∷ xs) ys =
      ap (λ zs. Signal.room_joined j room nick password ∷ zs) (room_joins-append xs ys)
  room_joins-append (_ ∷ xs) ys = room_joins-append xs ys

  -- Nothing of the login and of the rooms has changed.
  abbrev pub Quiet : User J → User J → Type 0
  Quiet u v =
      (v.connected ≡ u.connected)
      × (v.ready_for_connect ≡ u.ready_for_connect)
      × (v.joined_rooms ≡ u.joined_rooms)
      × (readies v.signals ≡ readies u.signals)
      × (room_joins v.signals ≡ room_joins u.signals)

  -- A signal that is neither.
  abbrev pub is_quiet : Signal J → Bool
  is_quiet Signal.ready_to_connect = false
  is_quiet (Signal.room_joined j room nick password) = false
  is_quiet _ = true

  pub readies-quiet :
      (xs : List (Signal J)) (x : Signal J)
      → is_quiet x ≡ true
      → readies (xs ++ x ∷ []) ≡ readies xs
  readies-quiet xs Signal.ready_to_connect h = cc
  readies-quiet xs (Signal.room_joined j room nick password) h = cc
  readies-quiet xs x h = omega (arith, readies-append xs (x ∷ []))

  pub room_joins-quiet :
      (xs : List (Signal J)) (x : Signal J)
      → is_quiet x ≡ true
      → room_joins (xs ++ x ∷ []) ≡ room_joins xs
  room_joins-quiet xs Signal.ready_to_connect h = cc
  room_joins-quiet xs (Signal.room_joined j room nick password) h = cc
  room_joins-quiet xs x h = room_joins-append xs (x ∷ []) ∙ append-nil (room_joins xs)

  Quiet-trans : (u v w : User J) → Quiet u v → Quiet v w → Quiet u w
  Quiet-trans u v w p q = ground arith

  pub emit-Quiet : (x : Signal J) (u : User J) → is_quiet x ≡ true → Quiet u (emit x u)
  emit-Quiet x u h = (refl, refl, refl, readies-quiet u.signals x h, room_joins-quiet u.signals x h)

  pub handle_photo-Quiet : (h : Option Text) (u : User J) → Quiet u (handle_photo h u)
  unfolding handle_photo
  handle_photo-Quiet none u = (refl, refl, refl, refl, refl)
  handle_photo-Quiet (some hash) u = ground (
    arith,
    readies-quiet u.signals Signal.request_vcard refl,
    room_joins-quiet u.signals Signal.request_vcard refl,
  )

  pub handle_photo-conversations :
      (h : Option Text) (u : User J) → (handle_photo h u).conversations ≡ u.conversations
  unfolding handle_photo
  handle_photo-conversations none u = refl
  handle_photo-conversations (some hash) u = ground arith

  tell_state-quiet :
      (connected : Bool) (highest : Option PresenceType) (to : J)
      → is_quiet (tell_state connected highest to) ≡ true
  unfolding tell_state
  tell_state-quiet false highest to = refl
  tell_state-quiet true none to = refl
  tell_state-quiet true (some k) to = refl

  tell_clients-Quiet :
      (highest : Option PresenceType) (ps : List (J × PresenceType)) (u : User J)
      → Quiet u (tell_clients highest ps u)
  unfolding tell_clients
  tell_clients-Quiet highest [] u = (refl, refl, refl, refl, refl)
  tell_clients-Quiet highest ((j, k) ∷ rest) u =
      let x = tell_state u.connected highest j in
      let v = if is_unavailable k then u else emit x u in
      let step : Quiet u v = ground (
        arith,
        readies-quiet u.signals x (tell_state-quiet u.connected highest j),
        room_joins-quiet u.signals x (tell_state-quiet u.connected highest j),
      ) in
      Quiet-trans u v (tell_clients highest rest v) step (tell_clients-Quiet highest rest v)

  tell_clients-conversations :
      (highest : Option PresenceType) (ps : List (J × PresenceType)) (u : User J)
      → (tell_clients highest ps u).conversations ≡ u.conversations
  unfolding tell_clients
  tell_clients-conversations highest [] u = refl
  tell_clients-conversations highest ((j, k) ∷ rest) u = ground (
    arith,
    tell_clients-conversations highest rest u,
    tell_clients-conversations highest rest (emit (tell_state u.connected highest j) u),
  )

module _ {J : Type 0} (host : Host J) (around : Around J) where
  pub send_current_presence-Quiet : (u : User J) → Quiet u (send_current_presence host around u)
  unfolding send_current_presence
  send_current_presence-Quiet u =
      ground (arith, tell_clients-Quiet around.highest around.presences u)

  pub send_current_presence-conversations :
      (u : User J) → (send_current_presence host around u).conversations ≡ u.conversations
  unfolding send_current_presence
  send_current_presence-conversations u =
      ground (arith, tell_clients-conversations around.highest around.presences u)

  set_cache_messages-Quiet :
      (invalid : J) (caches : Bool) (u : User J)
      → Quiet u (set_cache_messages host around invalid caches u)
  unfolding set_cache_messages
  set_cache_messages-Quiet invalid caches u = ground arith

  change_to-Quiet :
      (invalid : J) (highest : Option PresenceType) (u : User J)
      → Quiet u (change_to host around invalid highest u)
  unfolding change_to
  change_to-Quiet invalid none u = emit-Quiet (Signal.presence_changed unavailable) u refl
  change_to-Quiet invalid (some k) u =
      let told = emit (Signal.presence_changed k) u in
      Quiet-trans u told (set_cache_messages host around invalid false told)
        (emit-Quiet (Signal.presence_changed k) u refl)
        (set_cache_messages-Quiet invalid false told)

  pub change_presence-Quiet :
      (invalid : J) (u : User J) → Quiet u (change_presence host around invalid u)
  unfolding change_presence stay
  change_presence-Quiet invalid u = ground (
    arith,
    change_to-Quiet invalid around.highest u,
    set_cache_messages-Quiet invalid true
        (record u { resources = 0; conversations = clear_jids u.conversations }),
  )

  module _ ⦃same : Eq J⦄ where
    pub answer_client-Quiet : (p : Stanza J) (u : User J) → Quiet u (answer_client host around p u)
    unfolding answer_client
    answer_client-Quiet p u =
        let gone = Signal.send_unavailable_presences p.sender in
        let told = emit gone u in
        let sent = Signal.send_presence unavailable [] p.sender in
        ground (
          arith,
          send_current_presence-Quiet u,
          Quiet-trans u told (emit sent told) (emit-Quiet gone u refl) (emit-Quiet sent told refl),
        )

    pub greet_new-Quiet : (p : Stanza J) (u : User J) → Quiet u (greet_new host around p u)
    unfolding greet_new
    greet_new-Quiet p u = ground (
      arith,
      readies-quiet u.signals (Signal.send_current_presences p.sender) refl,
      room_joins-quiet u.signals (Signal.send_current_presences p.sender) refl,
    )

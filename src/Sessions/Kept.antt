-- ===== src/Sessions/Kept.antt =====
-- The invariant of a User under handlePresence, setConnected and the login timeout.
use spectrum.Prelude.{
  ◌≡◌, refl, Bool, true, false, ◌||◌, List, [], ◌∷◌, Option, none, some, nat_eq, text_eq, Eq,
  if◌then◌else◌, is_empty, arith, Bool-cases, inl, inr,
}
use spectrum.Presences.{PresenceType, is_unavailable}
use spectrum.Conversations.Manager.{reset_resources}
use spectrum.Sessions.State.{Stanza, Signal, Host, Around, User, with_conversations, is_muc}
use spectrum.Sessions.Rooms.{make_ready}
use spectrum.Sessions.Presence.{
  handle_photo, try_connect, remove_client, answer_client, greet_new, handle_general,
  handle_addressed, handle_presence, send_current_presence, rejoin, set_connected, tell_presence,
  on_connecting_timeout,
}
use spectrum.Sessions.Quiet.{
  handle_photo-Quiet, send_current_presence-Quiet, change_presence-Quiet, answer_client-Quiet,
  greet_new-Quiet,
}
use spectrum.Sessions.Joined.{
  Inv, Quiet-Inv, if-Inv, if-Inv_of, with_conversations-Inv, leave_rooms-Inv, make_ready-Inv,
  emit-Inv, handle_join-Inv, handle_leave-Inv,
}

module _ {J : Type 0} (host : Host J) (around : Around J) ⦃same : Eq J⦄ where
  try_connect-Inv :
      (p : Stanza J) (u : User J) → Inv host u → Inv host (try_connect host around p u)
  unfolding try_connect
  try_connect-Inv p u i =
      if-Inv_of host (u.connected || u.ready_for_connect) u _ (λ h. i)
        (λ h.
          let first : u.ready_for_connect ≡ false = ground arith in
          if-Inv host
            (if p.has_caps then around.capabilities p.sender else host.transport.server_mode)
            (make_ready u) (record u { timer = true }) (make_ready-Inv host u first i)
            (record { joined = i.joined; login = i.login }))

  remove_client-Inv : (j : J) (u : User J) → Inv host u → Inv host (remove_client host around j u)
  unfolding remove_client
  remove_client-Inv j u i = leave_rooms-Inv host around _ _ (with_conversations-Inv host _ u i)

  handle_general-Inv :
      (invalid : J) (p : Stanza J) (u : User J)
      → Inv host u
      → Inv host (handle_general host around invalid p u)
  unfolding handle_general
  handle_general-Inv invalid p u i =
      let reset = with_conversations (reset_resources host.transport u.conversations) u in
      let left =
        if is_unavailable p.kind then remove_client host around p.sender reset else reset in
      let answered = answer_client host around p left in
      let greeted = greet_new host around p answered in
      let kept : Inv host reset = with_conversations-Inv host _ u i in
      Quiet-Inv host greeted _ (change_presence-Quiet host around invalid greeted) (
        Quiet-Inv host answered greeted (greet_new-Quiet host around p answered) (
          Quiet-Inv host left answered (answer_client-Quiet host around p left) (
            if-Inv host (is_unavailable p.kind) _ reset (remove_client-Inv p.sender reset kept)
              kept)))

  handle_addressed-Inv :
      (invalid : J) (force : Bool) (p : Stanza J) (u : User J)
      → is_empty (host.node p.receiver) ≡ false
      → Inv host u
      → Inv host (handle_addressed host around invalid force p u)
  unfolding handle_addressed
  handle_addressed-Inv invalid force p u n i = elim (Bool-cases (is_unavailable p.kind)) [
    | inl gone ↦ rw gone (handle_leave-Inv host p u i)
    | inr here ↦ rw here (elim (Bool-cases (is_muc host p)) [
      | inl m ↦ rw m (handle_join-Inv host force p u (n, here, m) i)
      | inr m ↦
          rw m (handle_general-Inv invalid p _ (emit-Inv host (Signal.raw_presence p) u refl i))
    ])
  ]

  pub handle_presence-Inv :
      (invalid : J) (force : Bool) (p : Stanza J) (u : User J)
      → Inv host u
      → Inv host (handle_presence host around invalid force p u)
  unfolding handle_presence
  handle_presence-Inv invalid force p u i =
      let photo = handle_photo p.photo_hash u in
      let tried = try_connect host around p photo in
      let kept : Inv host tried =
        try_connect-Inv p photo (Quiet-Inv host u photo (handle_photo-Quiet p.photo_hash u) i) in
      elim (Bool-cases (is_empty (host.node p.receiver))) [
        | inl e ↦ rw e (handle_general-Inv invalid p tried kept)
        | inr n ↦ rw n (handle_addressed-Inv invalid force p tried n kept)
      ]

  rejoin-Inv :
      (invalid : J) (ps : List (Stanza J)) (u : User J)
      → Inv host u
      → Inv host (rejoin host around invalid ps u)
  unfolding rejoin
  rejoin-Inv invalid [] u i = i
  rejoin-Inv invalid (p ∷ ps) u i = rejoin-Inv invalid ps _ (handle_presence-Inv invalid true p u i)

  pub set_connected-Inv :
      (invalid : J) (connected : Bool) (u : User J)
      → Inv host u
      → Inv host (set_connected host around invalid connected u)
  unfolding set_connected
  set_connected-Inv invalid connected u i =
      let s : User J = record u {
        connected = connected;
        reconnect_counter = 0;
        ignore_disconnect = false;
      } in
      let told = send_current_presence host around s in
      let kept : Inv host told =
        Quiet-Inv host s told (send_current_presence-Quiet host around s)
          (record { joined = i.joined; login = i.login }) in
      if-Inv host connected _ told (rejoin-Inv invalid told.joined_rooms told kept) kept

  tell_presence-Inv :
      (highest : Option PresenceType) (u : User J)
      → Inv host u
      → Inv host (tell_presence host around highest u)
  unfolding tell_presence
  tell_presence-Inv none u i = i
  tell_presence-Inv (some k) u i = emit-Inv host (Signal.presence_changed k) u refl i

  pub on_connecting_timeout-Inv :
      (u : User J) → Inv host u → Inv host (on_connecting_timeout host around u)
  unfolding on_connecting_timeout
  on_connecting_timeout-Inv u i =
      if-Inv_of host (u.connected || u.ready_for_connect) u _ (λ h. i)
        (λ h.
          let first : u.ready_for_connect ≡ false = ground arith in
          tell_presence-Inv around.highest _ (
            make_ready-Inv host (record u { timer = false }) first
              (record { joined = i.joined; login = i.login })))

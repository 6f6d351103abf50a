-- ===== src/Users/Stanzas.antt =====
-- The other stanzas that the manager handles (libtransport/UserManager.cpp), and all its calls.
use spectrum.Prelude.{
  ℕ, ◌≡◌, Bool, true, false, not, ◌&&◌, [], Option, none, some, Text, text_eq, if◌then◌else◌,
  is_empty,
}
use spectrum.Prelude.Maps.{lookup}
use spectrum.Presences.{
  PresenceType, available, unavailable, subscribe, subscribed, unsubscribe, unsubscribed, probe,
  error,
}
use spectrum.Registry.{Registry}
use spectrum.Users.State.{Host, Stanza, Effect, Manager, emit}
use spectrum.Users.Login.{get_user, find_registered, handle_presence}
use spectrum.Users.Removal.{connect_user, disconnect_user, remove_user, handle_remove_timeout}

pub record Message (J : Type 0) : Type 0 where
  pub sender : J
  pub is_error : Bool
  pub has_chat_state : Bool
  pub body : Text
  pub subject : Text

module _ {J D : Type 0} (host : Host J D) where
  -- What is told to a user if he is logged in, and what is done if he is not.
  unfoldable pub tell :
      Option ℕ → (ℕ → Effect J) → (Manager J D → Manager J D) → Manager J D → Manager J D
  tell none x otherwise s = otherwise s
  tell (some u) x otherwise s = emit (x u) s

  unfoldable pub tell_user :
      J → (ℕ → Effect J) → (Manager J D → Manager J D) → Manager J D → Manager J D
  tell_user j x otherwise s =
      let found = get_user host (host.swift.bare j) s in tell found.0 x otherwise found.1

  unfoldable pub handle_disco_info : J → Manager J D → Manager J D
  handle_disco_info j s = tell_user j (λ u. Effect.disco_info u j) (λ t. t) s

  unfoldable pub handle_message_received : Message J → Manager J D → Manager J D
  handle_message_received m s =
      if m.is_error
      then s
      else (let counted = if m.has_chat_state then s else emit Effect.message_to_backend s in
          if is_empty m.body && not m.has_chat_state && is_empty m.subject
          then counted
          else tell_user m.sender Effect.to_conversations (λ t. t) counted)

  unfoldable pub node_is_empty : Stanza J → Bool
  node_is_empty p = is_empty (host.swift.node p.receiver)

  unfoldable pub handle_probe_presence : Stanza J → Manager J D → Manager J D
  handle_probe_presence p s =
      if node_is_empty p
      then s
      else tell_user p.sender (λ u. Effect.to_roster u p.receiver)
          (emit (Effect.send_presence unavailable p.sender)) s

  -- A subscription to the transport is asked of somebody who is registered.
  unfoldable pub subscribe_registered : J → Manager J D → Manager J D
  subscribe_registered j s = elim (find_registered host (host.swift.bare j) s) [
    | none ↦ s
    | some _ ↦ emit (Effect.send_presence subscribe (host.swift.to_bare j)) s
  ]

  -- `required` tells whether the error is that a subscription is required.
  unfoldable pub handle_error_presence : Bool → Stanza J → Manager J D → Manager J D
  handle_error_presence required p s =
      if node_is_empty p && required then subscribe_registered p.sender s else s

  abbrev pub is_subscribe : PresenceType → Bool
  is_subscribe subscribe = true
  is_subscribe _ = false

  abbrev pub is_unsubscribe : PresenceType → Bool
  is_unsubscribe unsubscribe = true
  is_unsubscribe _ = false

  abbrev pub is_unsubscribed : PresenceType → Bool
  is_unsubscribed unsubscribed = true
  is_unsubscribed _ = false

  unfoldable pub handle_subscription : Stanza J → Manager J D → Manager J D
  handle_subscription p s =
      if is_subscribe p.kind && node_is_empty p
      then emit (Effect.send_presence subscribed (host.swift.to_bare p.sender)) s
      else if is_unsubscribed p.kind && node_is_empty p
      then subscribe_registered p.sender s
      else if node_is_empty p
      then s
      else tell_user p.sender (λ u. Effect.subscription u p)
          (λ t.
            if is_unsubscribe p.kind
            then emit (Effect.send_presence unsubscribed p.sender) t
            else t)
          s

  module _ (created : ℕ → Manager J D → Manager J D) where
    unfoldable pub handle_available : Stanza J → Manager J D → Manager J D
    handle_available p s = if node_is_empty p then s else handle_presence host created p none s

    unfoldable pub handle_unavailable : Stanza J → Manager J D → Manager J D
    handle_unavailable p s =
        if node_is_empty p then s else tell_user p.sender (λ u. Effect.to_user u p) (λ t. t) s

    unfoldable pub dispatch : PresenceType → Bool → Stanza J → Manager J D → Manager J D
    dispatch available required p = handle_available p
    dispatch unavailable required p = handle_unavailable p
    dispatch probe required p = handle_probe_presence p
    dispatch error required p = handle_error_presence required p
    dispatch subscribe required p = handle_subscription p
    dispatch subscribed required p = handle_subscription p
    dispatch unsubscribe required p = handle_subscription p
    dispatch unsubscribed required p = handle_subscription p

    unfoldable pub handle_general_presence_received : Bool → Stanza J → Manager J D → Manager J D
    handle_general_presence_received required p = dispatch p.kind required p

    -- A call of the manager. The User that is removed is one that is in the map, and what other
    -- parts do is to connections, to the registry and to the database.
    pub data Step (s : Manager J D) : Manager J D → Type 0 where
      user_presence :
          (p : Stanza J) (highest : Option PresenceType)
          → Step s (handle_presence host created p highest s)
      general_presence :
          (required : Bool) (p : Stanza J) → Step s (handle_general_presence_received required p s)
      message : (m : Message J) → Step s (handle_message_received m s)
      disco : (j : J) → Step s (handle_disco_info j s)
      connect : (j : J) → Step s (connect_user host created j s)
      disconnect :
          (j : J) (highest : Option PresenceType)
          → Step s (disconnect_user host created j highest s)
      timeout :
          (name : Text) (u : ℕ) (reconnect : Bool)
          → Step s (handle_remove_timeout host created name u reconnect s)
      removal :
          (u : ℕ) (on_user_behalf : Bool)
          → lookup (host.swift.bare (s.jid u)) s.users ≡ some u
          → Step s (remove_user host created u on_user_behalf s)
      elsewhere :
          (f : ℕ → Bool) (r : Registry J) (d : Option D)
          → Step s (record s { is_connected = f; registry = r; storage = d })

    -- Any calls since the manager was made.
    pub data Reach : Manager J D → Type 0 where
      start : (s : Manager J D) → s.users ≡ [] → s.cached_user ≡ none → Reach s
      next : {s t : Manager J D} → Reach s → Step s t → Reach t

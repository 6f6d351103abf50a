-- ===== src/Users/Reached.antt =====
-- After any calls, what getUser answers from its cache is what stands in the map.
use spectrum.Prelude.{ℕ, ◌≡◌, refl, sym, ◌∙◌, Bool, [], Option, none, some, Text, text_eq, arith}
use spectrum.Prelude.Maps.{lookup}
use spectrum.Presences.{
  PresenceType, available, unavailable, subscribe, subscribed, unsubscribe, unsubscribed, probe,
  error,
}
use spectrum.Users.State.{Host, Stanza, Effect, Manager, emit}
use spectrum.Users.Login.{get_user}
use spectrum.Users.Removal.{disconnect_user}
use spectrum.Users.Stanzas.{
  Message, tell, tell_user, handle_disco_info, handle_message_received, handle_probe_presence,
  subscribe_registered, handle_error_presence, handle_subscription, handle_available,
  handle_unavailable, dispatch, handle_general_presence_received, Step, Reach,
}
use spectrum.Users.Same.{Same, emit-Same}
use spectrum.Users.Cache.{
  IsConsistent, Same-IsConsistent, if_keeps, get_user-lookup, get_user-IsConsistent, users-get_user,
  handle_presence-IsConsistent,
}
use spectrum.Users.Leaving.{remove_user-IsConsistent}
use spectrum.Users.Sound.{connect_user-IsConsistent, handle_remove_timeout-IsConsistent}

module _ {J D : Type 0} (host : Host J D) where
  abbrev Kept : (Manager J D → Manager J D) → Type 0
  Kept f = (s : Manager J D) → IsConsistent host s → IsConsistent host (f s)

  emit-Kept : (x : Effect J) → Kept (emit x)
  emit-Kept x s ok = Same-IsConsistent host (emit-Same x s) ok

  tell-Kept :
      (found : Option ℕ) (x : ℕ → Effect J) (f : Manager J D → Manager J D)
      → Kept f
      → Kept (tell host found x f)
  unfolding tell
  tell-Kept none x f kept s ok = kept s ok
  tell-Kept (some u) x f kept s ok = emit-Kept (x u) s ok

  tell_user-Kept :
      (j : J) (x : ℕ → Effect J) (f : Manager J D → Manager J D)
      → Kept f
      → Kept (tell_user host j x f)
  unfolding tell_user
  tell_user-Kept j x f kept s ok =
      tell-Kept _ x f kept _ (get_user-IsConsistent host (host.swift.bare j) s ok)

  handle_message_received-Kept : (m : Message J) → Kept (handle_message_received host m)
  unfolding handle_message_received
  handle_message_received-Kept m s ok =
      let counted =
        if_keeps (IsConsistent host) m.has_chat_state ok
          (emit-Kept Effect.message_to_backend s ok) in
      if_keeps (IsConsistent host) m.is_error ok (
        if_keeps (IsConsistent host) _ counted
          (tell_user-Kept m.sender Effect.to_conversations (λ t. t) (λ t h. h) _ counted))

  handle_probe_presence-Kept : (p : Stanza J) → Kept (handle_probe_presence host p)
  unfolding handle_probe_presence
  handle_probe_presence-Kept p s ok =
      if_keeps (IsConsistent host) _ ok
        (tell_user-Kept p.sender _ _ (emit-Kept (Effect.send_presence unavailable p.sender)) s ok)

  subscribe_registered-Same : (j : J) (s : Manager J D) → Same s (subscribe_registered host j s)
  unfolding subscribe_registered
  subscribe_registered-Same j s = ground arith

  handle_error_presence-Kept :
      (required : Bool) (p : Stanza J) → Kept (handle_error_presence host required p)
  unfolding handle_error_presence
  handle_error_presence-Kept required p s ok =
      if_keeps (IsConsistent host) _
        (Same-IsConsistent host (subscribe_registered-Same p.sender s) ok) ok

  handle_subscription-Kept : (p : Stanza J) → Kept (handle_subscription host p)
  unfolding handle_subscription
  handle_subscription-Kept p s ok = if_keeps (IsConsistent host) _ (emit-Kept _ s ok) (
      if_keeps (IsConsistent host) _
        (Same-IsConsistent host (subscribe_registered-Same p.sender s) ok)
        (if_keeps (IsConsistent host) _ ok (
          tell_user-Kept p.sender _ _ (λ t h. if_keeps (IsConsistent host) _ (emit-Kept _ t h) h) s
            ok)))

  module _ (created : ℕ → Manager J D → Manager J D)
      (created-Kept : (u : ℕ) → Kept (created u)) where
    dispatch-Kept :
        (k : PresenceType) (required : Bool) (p : Stanza J)
        → Kept (dispatch host created k required p)
    unfolding dispatch handle_available handle_unavailable
    dispatch-Kept available required p s ok =
        if_keeps (IsConsistent host) _ ok
          (handle_presence-IsConsistent host created created-Kept p none s ok)
    dispatch-Kept unavailable required p s ok =
        if_keeps (IsConsistent host) _ ok (tell_user-Kept p.sender _ _ (λ t h. h) s ok)
    dispatch-Kept probe required p s ok = handle_probe_presence-Kept p s ok
    dispatch-Kept error required p s ok = handle_error_presence-Kept required p s ok
    dispatch-Kept subscribe required p s ok = handle_subscription-Kept p s ok
    dispatch-Kept subscribed required p s ok = handle_subscription-Kept p s ok
    dispatch-Kept unsubscribe required p s ok = handle_subscription-Kept p s ok
    dispatch-Kept unsubscribed required p s ok = handle_subscription-Kept p s ok

    Step-IsConsistent :
        {s t : Manager J D} → Step host created s t → IsConsistent host s → IsConsistent host t
    unfolding handle_general_presence_received handle_disco_info disconnect_user
    Step-IsConsistent {s} (Step.user_presence p highest) ok =
        handle_presence-IsConsistent host created created-Kept p highest s ok
    Step-IsConsistent {s} (Step.general_presence required p) ok =
        dispatch-Kept p.kind required p s ok
    Step-IsConsistent {s} (Step.message m) ok = handle_message_received-Kept m s ok
    Step-IsConsistent {s} (Step.disco j) ok = tell_user-Kept j _ _ (λ t h. h) s ok
    Step-IsConsistent {s} (Step.connect j) ok =
        connect_user-IsConsistent host created created-Kept j s ok
    Step-IsConsistent {s} (Step.disconnect j highest) ok =
        handle_presence-IsConsistent host created created-Kept _ highest s ok
    Step-IsConsistent {s} (Step.timeout name u reconnect) ok =
        handle_remove_timeout-IsConsistent host created created-Kept name u reconnect s ok
    Step-IsConsistent {s} (Step.removal u on_user_behalf h) ok =
        remove_user-IsConsistent host created u on_user_behalf s ok h
    Step-IsConsistent {s} (Step.elsewhere f r d) ok =
        Same-IsConsistent host (record { users = refl; cached = refl; next = refl; jid = refl }) ok

    empty-IsConsistent :
        (s : Manager J D) → s.users ≡ [] → s.cached_user ≡ none → IsConsistent host s
    unfolding lookup
    empty-IsConsistent s e c = record {
      named = λ name u h. ground arith;
      created = λ name u h. ground arith;
      cached = λ u h. ground arith;
    }

    pub Reach-IsConsistent : {s : Manager J D} → Reach host created s → IsConsistent host s
    Reach-IsConsistent (Reach.start s e c) = empty-IsConsistent s e c
    Reach-IsConsistent (Reach.next r step) = Step-IsConsistent step (Reach-IsConsistent r)

    -- After any calls of the manager, whatever other parts do to connections, the registry and the
    -- database, and if what the listeners do to it when a user is created keeps it consistent: getUser
    -- answers what the map of users holds under the name, from the cache or not, it leaves the map as
    -- it is, and a User that it answers carries that name.
    pub Reach-get_user :
        {s : Manager J D}
        → Reach host created s
        → (name : Text)
        → ((get_user host name s).0 ≡ lookup name s.users)
          × ((get_user host name s).1.users ≡ s.users)
          × ((u : ℕ) → (get_user host name s).0 ≡ some u → host.swift.bare (s.jid u) ≡ name)
    Reach-get_user {s} r name =
        let ok = Reach-IsConsistent r in
        (
          get_user-lookup host name s ok,
          users-get_user host name s,
          λ u h. ok.named name u (sym (get_user-lookup host name s ok) ∙ h),
        )

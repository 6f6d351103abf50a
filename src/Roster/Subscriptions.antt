-- ===== src/Roster/Subscriptions.antt =====
-- RosterManager::handleSubscription (libtransport/RosterManager.cpp).
use spectrum.Prelude.{
  ℕ, Bool, true, false, not, ◌&&◌, ◌||◌, Option, none, some, Text, nat_eq, text_eq, if◌then◌else◌,
  is_empty,
}
use spectrum.Presences.{PresenceType, subscribe, subscribed, unsubscribe, unsubscribed}
use spectrum.Roster.Store.{
  Subscription, Effect, Roster, emit, set_live, set_buddy_at, queue_buddy, get_buddy, set_buddy,
  remove_buddy, create_buddy,
}

-- Whether the buddy is still the temporary one, whether his pointer is not null, what is answered,
-- and the roster.
pub record Outcome : Type 0 where
  pub is_new : Bool
  pub is_set : Bool
  pub response : Option PresenceType
  pub roster : Roster

abbrev pub is_ask : Subscription → Bool
is_ask Subscription.ask = true
is_ask Subscription.both = false

abbrev pub nothing : Bool → Roster → Outcome
nothing is_new s = record { is_new = is_new; is_set = true; response = none; roster = s }

-- Where `createBuddy` gives a null pointer, whether it is used.
abbrev pub null_is_used : Bool → PresenceType → Bool
null_is_used on subscribe = true
null_is_used on unsubscribe = true
null_is_used on subscribed = not on
null_is_used on unsubscribed = not on
null_is_used on _ = false

module _ (lower : Text → Text) where
  unfoldable pub remove_known : Bool → ℕ → Option PresenceType → Roster → Outcome
  remove_known is_new a response s =
      if is_new
      then record { is_new = true; is_set = true; response = response; roster = s }
      else record {
        is_new = false;
        is_set = false;
        response = response;
        roster = remove_buddy lower (s.buddy a).name s;
      }

  unfoldable pub in_server_mode : PresenceType → Bool → ℕ → Roster → Outcome
  in_server_mode subscribe is_new a s = record {
    is_new = false;
    is_set = true;
    response = some subscribed;
    roster = emit (Effect.buddy_added a) (if is_new then set_buddy lower a s else s);
  }
  in_server_mode subscribed is_new a s =
      nothing is_new (if is_new then s else emit (Effect.buddy_added a) s)
  in_server_mode unsubscribe is_new a s =
      remove_known is_new a (some unsubscribed) (emit (Effect.buddy_removed a) s)
  in_server_mode _ is_new a s = nothing is_new s

  -- A known buddy who only asked for a subscription has it from now on.
  unfoldable pub accept : ℕ → Roster → Roster
  accept a s =
      if is_ask (s.buddy a).subscription
      then queue_buddy a
          (set_buddy_at a (record (s.buddy a) { subscription = Subscription.both }) s)
      else s

  unfoldable pub befriend : Option PresenceType → Bool → ℕ → Roster → Outcome
  befriend response is_new a s = record {
    is_new = false;
    is_set = true;
    response = response;
    roster =
        emit (Effect.send_presences a)
          (emit (Effect.buddy_added a) (if is_new then set_buddy lower a s else accept a s));
  }

  unfoldable pub as_gateway : PresenceType → Bool → ℕ → Roster → Outcome
  as_gateway subscribe is_new a s = befriend (some subscribed) is_new a s
  as_gateway subscribed is_new a s = befriend none is_new a s
  as_gateway unsubscribe is_new a s = remove_known is_new a (some unsubscribed) (
      if is_new || is_ask (s.buddy a).subscription || s.enable_remove_buddy
      then emit (Effect.buddy_removed a) s
      else s)
  as_gateway unsubscribed is_new a s =
      if is_ask (s.buddy a).subscription
      then record {
        is_new = is_new;
        is_set = false;
        response = some unsubscribe;
        roster = remove_buddy lower (s.buddy a).name (emit (Effect.buddy_removed a) s);
      }
      else nothing is_new s
  as_gateway _ is_new a s = nothing is_new s

  unfoldable pub act : PresenceType → Bool → ℕ → Roster → Outcome
  act k is_new a s = if s.server_mode then in_server_mode k is_new a s else as_gateway k is_new a s

  -- As a gateway the transport acts as the buddy too.
  unfoldable pub respond : Option PresenceType → Roster → Roster
  respond none s = s
  respond (some unsubscribed) s =
      let told = emit (Effect.answer unsubscribed) s in
      if s.server_mode then told else emit (Effect.answer unsubscribe) told
  respond (some subscribed) s =
      let told = emit (Effect.answer subscribed) s in
      if s.server_mode then told else emit (Effect.answer subscribe) told
  respond (some k) s = emit (Effect.answer k) s

  -- The temporary buddy is deleted.
  unfoldable pub finish : ℕ → Outcome → Roster
  finish a o =
      let told = respond o.response o.roster in
      if o.is_new && o.is_set then set_live a false told else told

  unfoldable pub subscription_of :
      Bool → PresenceType → Text → Bool → Option ℕ → Roster → Option Roster
  subscription_of creates k name escaped (some a) s = some (finish a (act k false a s))
  subscription_of true k name escaped none s =
      some (finish s.next (act k true s.next (create_buddy lower name escaped s)))
  subscription_of false k name escaped none s =
      if null_is_used s.server_mode k then none else some s

  -- `name` is the legacy name of the receiver and `escaped` tells whether his JID is; `creates` tells
  -- whether `createBuddy` succeeds. `none` where a null pointer is used.
  unfoldable pub handle_subscription : Bool → PresenceType → Text → Bool → Roster → Option Roster
  handle_subscription creates k name escaped s =
      let r = get_buddy lower name s in
      if is_empty name then some s else subscription_of creates k name escaped r.0 r.1

-- ===== src/Roster/Verdict.antt =====
-- Who stands in the roster after a subscription, and which buddies are still allocated.
use spectrum.Prelude.{
  ℕ, ◌≡◌, refl, ap, ◌∙◌, Bool, true, false, not, ◌&&◌, Option, none, some, Text, nat_eq, text_eq,
  ◌==◌, if◌then◌else◌, is_empty, arith,
}
use spectrum.Prelude.Maps.{lookup}
use spectrum.Presences.{
  PresenceType, available, unavailable, subscribe, subscribed, unsubscribe, unsubscribed, probe,
  error,
}
use spectrum.Roster.Store.{
  Subscription, Effect, Roster, emit, set_buddy_at, queue_buddy, found, get_buddy, set_buddy,
  remove_buddy, create_buddy,
}
use spectrum.Roster.Subscriptions.{
  Outcome, is_ask, remove_known, in_server_mode, accept, befriend, as_gateway, act, respond, finish,
  subscription_of, handle_subscription,
}
use spectrum.Roster.Found.{
  find, Same, queue_buddy-Same, find-get_buddy, get_buddy-find, others-get_buddy, find-set_buddy,
  find-remove_buddy, live-remove_buddy,
}

-- Who stands under the name afterwards, from who stood there, whether that one only asked for a
-- subscription, and who would be new.
abbrev pub verdict : Bool → PresenceType → Option ℕ → Bool → ℕ → Option ℕ
verdict server subscribe (some a) asks new = some a
verdict server subscribe none asks new = some new
verdict server subscribed (some a) asks new = some a
verdict server subscribed none asks new = if server then none else some new
verdict server unsubscribe here asks new = none
verdict server unsubscribed none asks new = none
verdict server unsubscribed (some a) asks new = if not server && asks then none else some a
verdict server _ here asks new = here

abbrev pub is_some : Option ℕ → Bool
is_some none = false
is_some (some a) = true

module _ (lower : Text → Text) where
  respond-Same : (o : Option PresenceType) (s : Roster) → Same s (respond lower o s)
  unfolding respond
  respond-Same none s = ground arith
  respond-Same (some subscribed) s = ground arith
  respond-Same (some unsubscribed) s = ground arith
  respond-Same (some _) s = ground arith

  finish_kept :
      (a : ℕ) (o : Outcome)
      → o.is_new ≡ false
      → ((finish lower a o).buddies ≡ o.roster.buddies) × ((finish lower a o).live ≡ o.roster.live)
  unfolding finish
  finish_kept a o e = ground (arith, respond-Same o.response o.roster)

  -- What an outcome leaves under a name and allocated.
  abbrev Leaves : Text → Option ℕ → ℕ → Bool → Roster → Roster → Type 0
  Leaves name who a alive s t =
      ((other : Text) → find other t ≡ (if lower name == other then who else find other s))
      × ((b : ℕ) → t.live b ≡ (if a == b then alive else s.live b))

  module _ (lower_twice : (n : Text) → lower (lower n) ≡ lower n) where
    removed-Leaves :
        (name : Text) (a : ℕ) (s : Roster)
        → find (lower name) s ≡ some a
        → lower (s.buddy a).name ≡ lower name
        → Leaves name none a false s (remove_buddy lower (s.buddy a).name s)
    removed-Leaves name a s here named =
        let here' : find (lower (s.buddy a).name) s ≡ some a = ap (λ k. find k s) named ∙ here in
        (
          λ other.
              find-remove_buddy lower lower_twice (s.buddy a).name a s here' refl other
              ∙ ap (λ k. if k == other then none else find other s) named,
          λ b. live-remove_buddy lower lower_twice (s.buddy a).name a s here' refl b,
        )

    kept-Leaves :
        (name : Text) (a : ℕ) (s : Roster)
        → find (lower name) s ≡ some a
        → s.live a ≡ true
        → Leaves name (some a) a true s s
    kept-Leaves name a s here alive = (
      λ other. ground (arith, here, text_eq.same_iff (lower name) other),
      λ b. ground (arith, alive),
    )

    same-Leaves :
        (name : Text) (a : ℕ) (s t : Roster)
        → find (lower name) s ≡ some a
        → s.live a ≡ true
        → t.buddies ≡ s.buddies
        → t.live ≡ s.live
        → Leaves name (some a) a true s t
    same-Leaves name a s t here alive e l =
        let kept = kept-Leaves name a s here alive in
        (
          λ other. ap (λ m. found (lookup other m)) e ∙ kept.0 other,
          λ b. ap (λ f. f b) l ∙ kept.1 b,
        )

    -- A buddy who stood in the roster.
    known_lem :
        (k : PresenceType) (name : Text) (a new : ℕ) (s : Roster)
        → find (lower name) s ≡ some a
        → lower (s.buddy a).name ≡ lower name
        → s.live a ≡ true
        → Leaves name
            (verdict s.server_mode k (some a) (is_ask (s.buddy a).subscription) new)
            a
            (is_some (verdict s.server_mode k (some a) (is_ask (s.buddy a).subscription) new))
            s
            (finish lower a (act lower k false a s))
    unfolding act finish in_server_mode as_gateway respond befriend accept remove_known
    known_lem subscribe name a new s here named alive =
        let accepted =
          queue_buddy-Same a
            (set_buddy_at a (record (s.buddy a) { subscription = Subscription.both }) s) in
        same-Leaves name a s (finish lower a (act lower subscribe false a s)) here alive
          (ground (arith, accepted)) (ground (arith, accepted))
    known_lem subscribed name a new s here named alive =
        let accepted =
          queue_buddy-Same a
            (set_buddy_at a (record (s.buddy a) { subscription = Subscription.both }) s) in
        same-Leaves name a s (finish lower a (act lower subscribed false a s)) here alive
          (ground (arith, accepted)) (ground (arith, accepted))
    known_lem unsubscribe name a new s here named alive =
        let quiet = removed-Leaves name a s here named in
        let told = removed-Leaves name a (emit (Effect.buddy_removed a) s) here named in
        (
          λ other. ground (arith, quiet.0 other, told.0 other),
          λ b. ground (arith, quiet.1 b, told.1 b),
        )
    known_lem unsubscribed name a new s here named alive =
        let told = removed-Leaves name a (emit (Effect.buddy_removed a) s) here named in
        let kept = kept-Leaves name a s here alive in
        (
          λ other. ground (arith, told.0 other, kept.0 other),
          λ b. ground (arith, told.1 b, kept.1 b),
        )
    known_lem available name a new s here named alive =
        same-Leaves name a s (finish lower a (act lower available false a s)) here alive
          (ground arith) (ground arith)
    known_lem unavailable name a new s here named alive =
        same-Leaves name a s (finish lower a (act lower unavailable false a s)) here alive
          (ground arith) (ground arith)
    known_lem probe name a new s here named alive =
        same-Leaves name a s (finish lower a (act lower probe false a s)) here alive (ground arith)
          (ground arith)
    known_lem error name a new s here named alive =
        same-Leaves name a s (finish lower a (act lower error false a s)) here alive (ground arith)
          (ground arith)

  live-set_buddy : (a b : ℕ) (s : Roster) → (set_buddy lower a s).live b ≡ s.live b
  unfolding set_buddy queue_buddy
  live-set_buddy a b s = ground arith

  -- A buddy who is in nobody's roster yet.
  abbrev Fresh : Text → ℕ → Roster → Roster → Type 0
  Fresh name a s u =
      (u.buddies ≡ s.buddies)
      × ((b : ℕ) → u.live b ≡ (if a == b then true else s.live b))
      × (u.server_mode ≡ s.server_mode)
      × ((u.buddy a).name ≡ name)
      × (is_ask (u.buddy a).subscription ≡ false)

  create_buddy-Fresh :
      (name : Text) (escaped : Bool) (s : Roster)
      → Fresh name s.next s (create_buddy lower name escaped s)
  unfolding create_buddy
  create_buddy-Fresh name escaped s = (refl, λ b. refl, refl, ground arith, ground arith)

  -- The temporary buddy is deleted again.
  deleted-Leaves :
      (name : Text) (a : ℕ) (s u t : Roster)
      → find (lower name) s ≡ none
      → Fresh name a s u
      → t.buddies ≡ u.buddies
      → ((b : ℕ) → t.live b ≡ (if a == b then false else u.live b))
      → Leaves name none a false s t
  deleted-Leaves name a s u t none_here fresh e l = (
    λ other.
        ap (λ m. found (lookup other m)) e
        ∙ ground (arith, fresh, text_eq.same_iff (lower name) other),
    λ b. l b ∙ ground (arith, fresh.1 b),
  )

  new_lem :
      (k : PresenceType) (name : Text) (a : ℕ) (s u : Roster)
      → find (lower name) s ≡ none
      → Fresh name a s u
      → Leaves name
          (verdict s.server_mode k none false a)
          a
          (is_some (verdict s.server_mode k none false a))
          s
          (finish lower a (act lower k true a u))
  unfolding act finish in_server_mode as_gateway respond befriend accept remove_known
  new_lem subscribe name a s u none_here fresh = (
    λ other. ground (arith, find-set_buddy lower a other u, fresh),
    λ b. ground (arith, live-set_buddy a b u, fresh.1 b),
  )
  new_lem subscribed name a s u none_here fresh = (
    λ other.
        ground (arith, find-set_buddy lower a other u, fresh, text_eq.same_iff (lower name) other),
    λ b. ground (arith, live-set_buddy a b u, fresh.1 b),
  )
  new_lem unsubscribe name a s u none_here fresh =
      deleted-Leaves name a s u (finish lower a (act lower unsubscribe true a u)) none_here fresh
        (ground (arith, fresh)) (λ b. ground (arith, fresh))
  new_lem unsubscribed name a s u none_here fresh =
      deleted-Leaves name a s u (finish lower a (act lower unsubscribed true a u)) none_here fresh
        (ground (arith, fresh)) (λ b. ground (arith, fresh))
  new_lem available name a s u none_here fresh =
      deleted-Leaves name a s u (finish lower a (act lower available true a u)) none_here fresh
        (ground (arith, fresh)) (λ b. ground (arith, fresh))
  new_lem unavailable name a s u none_here fresh =
      deleted-Leaves name a s u (finish lower a (act lower unavailable true a u)) none_here fresh
        (ground (arith, fresh)) (λ b. ground (arith, fresh))
  new_lem probe name a s u none_here fresh =
      deleted-Leaves name a s u (finish lower a (act lower probe true a u)) none_here fresh
        (ground (arith, fresh)) (λ b. ground (arith, fresh))
  new_lem error name a s u none_here fresh =
      deleted-Leaves name a s u (finish lower a (act lower error true a u)) none_here fresh
        (ground (arith, fresh)) (λ b. ground (arith, fresh))

  -- Everybody stands under his own name and is allocated.
  pub record Keyed (s : Roster) : Type 0 where
    pub named : (key : Text) (a : ℕ) → find key s ≡ some a → lower (s.buddy a).name ≡ key
    pub alive : (key : Text) (a : ℕ) → find key s ≡ some a → s.live a ≡ true

  -- Who the call is about: the buddy that is found, or the one that is created.
  abbrev pub subject : Option ℕ → Roster → ℕ
  subject none s = s.next
  subject (some a) s = a

  abbrev pub only_asks : Option ℕ → Roster → Bool
  only_asks none s = false
  only_asks (some a) s = is_ask (s.buddy a).subscription

  -- Who stands under the name when the call is over, from who is found there before.
  abbrev pub outcome : PresenceType → Option ℕ → Roster → Option ℕ
  outcome k here s = verdict s.server_mode k here (only_asks here s) s.next

  subscribed_lem :
      ((n : Text) → lower (lower n) ≡ lower n)
      → (k : PresenceType) (name : Text) (escaped : Bool) (here : Option ℕ) (s : Roster) → Keyed s
      → find (lower name) s ≡ here
      → (t : Roster) × (subscription_of lower true k name escaped here s ≡ some t)
        × Leaves name (outcome k here s) (subject here s) (is_some (outcome k here s)) s t
  unfolding subscription_of
  subscribed_lem twice k name escaped none s keyed e = (
    finish lower s.next (act lower k true s.next (create_buddy lower name escaped s)),
    refl,
    new_lem k name s.next s (create_buddy lower name escaped s) e
        (create_buddy-Fresh name escaped s),
  )
  subscribed_lem twice k name escaped (some a) s keyed e = (
    finish lower a (act lower k false a s),
    refl,
    known_lem twice k name a s.next s e (keyed.named (lower name) a e)
        (keyed.alive (lower name) a e),
  )

  -- `getBuddy` before the call changes nothing of that.
  outcome-get_buddy :
      (k : PresenceType) (here : Option ℕ) (name : Text) (s : Roster)
      → outcome k here (get_buddy lower name s).1 ≡ outcome k here s
  outcome-get_buddy k none name s = ground (arith, others-get_buddy lower name s)
  outcome-get_buddy k (some a) name s = ground (arith, others-get_buddy lower name s)

  subject-get_buddy :
      (here : Option ℕ) (name : Text) (s : Roster)
      → subject here (get_buddy lower name s).1 ≡ subject here s
  subject-get_buddy none name s = ground (arith, others-get_buddy lower name s)
  subject-get_buddy (some a) name s = refl

  pub get_buddy-Keyed : (name : Text) (s : Roster) → Keyed s → Keyed (get_buddy lower name s).1
  get_buddy-Keyed name s keyed = record {
    named = λ key a h.
        ground (
          arith,
          keyed.named key a,
          find-get_buddy lower name key s,
          others-get_buddy lower name s,
        );
    alive = λ key a h.
        ground (
          arith,
          keyed.alive key a,
          find-get_buddy lower name key s,
          others-get_buddy lower name s,
        );
  }

  -- In a roster whose buddies stand under their own names in lower case and are allocated, where a new
  -- buddy can be created and lower case is idempotent, a subscription for a name that is not empty
  -- returns. Under the name there is afterwards: for Subscribe, and as a gateway for Subscribed, the
  -- buddy who was there or else a new one; for Unsubscribe nobody; as a gateway for Unsubscribed
  -- nobody if the buddy only asked for a subscription; else who was there. All other names are as
  -- before. The buddy that the call is about, found or created, is allocated afterwards exactly when
  -- he is in the roster; all others as before.
  pub handle_subscription_lem :
      ((n : Text) → lower (lower n) ≡ lower n)
      → (k : PresenceType) (name : Text) (escaped : Bool) (s : Roster) → Keyed s
      → is_empty name ≡ false
      → (t : Roster) × (handle_subscription lower true k name escaped s ≡ some t)
        × ((other : Text)
            → find other t
              ≡ (if lower name == other then outcome k (find (lower name) s) s else find other s))
        × ((b : ℕ)
            → t.live b ≡ (
                if subject (find (lower name) s) s == b
                then is_some (outcome k (find (lower name) s) s)
                else s.live b))
  unfolding handle_subscription
  handle_subscription_lem twice k name escaped s keyed named =
      let here = find (lower name) s in
      let s' = (get_buddy lower name s).1 in
      let (t, returns, (finds, allocated)) =
        subscribed_lem twice k name escaped here s' (get_buddy-Keyed name s keyed)
          (find-get_buddy lower name (lower name) s) in
      (
        t,
        rw (named, get_buddy-find lower name s) returns,
        λ other. ground (
          arith,
          finds other,
          outcome-get_buddy k here name s,
          find-get_buddy lower name other s,
        ),
        λ b. ground (
          arith,
          allocated b,
          outcome-get_buddy k here name s,
          subject-get_buddy here name s,
          others-get_buddy lower name s,
        ),
      )

-- ===== src/Roster/Tests.antt =====
-- Buddy 3, called `98`, asked for a subscription, which the user denies; lower case changes nothing.
use spectrum.Prelude.{
  ℕ, ◌≡◌, refl, true, false, [], ◌∷◌, some, Text, nat_eq, text_eq, ◌==◌, if◌then◌else◌, arith,
}
use spectrum.Prelude.Keys.{text_beq}
use spectrum.Prelude.Maps.{lookup}
use spectrum.Presences.{unsubscribed}
use spectrum.Roster.Store.{Subscription, Buddy, Roster}
use spectrum.Roster.Subscriptions.{handle_subscription}
use spectrum.Roster.Found.{find}
use spectrum.Roster.Verdict.{Keyed, outcome, subject, is_some, handle_subscription_lem}

abbrev asking : Buddy
asking = record {
  id = some 12;
  name = 98 ∷ [];
  alias = [];
  groups = [];
  subscription = Subscription.ask;
  escaped = false;
  icon_hash = [];
}

abbrev roster : Roster
roster = record {
  server_mode = false;
  enable_remove_buddy = false;
  buddies = (98 ∷ [], some 3) ∷ [];
  buddy = λ a. asking;
  live = λ a. true;
  next = 4;
  queue = some [];
  effects = [];
}

abbrev lower : Text → Text
lower s = s

found_3 : (key : Text) (a : ℕ) → find key roster ≡ some a → (98 ∷ []) ≡ key
unfolding lookup
found_3 key a h = ground (arith, text_eq.same_iff (98 ∷ []) key)

roster-Keyed : Keyed lower roster
roster-Keyed = record { named = found_3; alive = λ key a h. refl }

handle_subscription_lem_example :
    (t : Roster) × (handle_subscription lower true unsubscribed (98 ∷ []) false roster ≡ some t)
    × ((other : Text)
        → find other t ≡ (
            if text_beq (98 ∷ []) other
            then outcome lower unsubscribed (find (98 ∷ []) roster) roster
            else find other roster))
    × ((b : ℕ)
        → t.live b ≡ (
            if subject lower (find (98 ∷ []) roster) roster == b
            then is_some (outcome lower unsubscribed (find (98 ∷ []) roster) roster)
            else true))
handle_subscription_lem_example =
    handle_subscription_lem lower (λ n. refl) unsubscribed (98 ∷ []) false roster roster-Keyed refl

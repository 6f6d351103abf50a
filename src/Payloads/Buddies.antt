-- ===== src/Payloads/Buddies.antt =====
-- The handlers of messages about buddies. Their status and whether they are blocked are not kept.
use spectrum.Prelude.{
  ℕ, ◌+◌, Bool, true, List, [], Option, none, some, Text, nat_eq, text_eq, ◌==◌, if◌then◌else◌,
  is_empty, map,
}
use spectrum.Users.State as Users
use spectrum.Roster.Store.{
  Subscription, Roster, set_live, set_buddy_at, get_buddy, set_buddy, remove_buddy,
}
use spectrum.Roster.Storage.{set_alias, set_groups, set_icon_hash}
use spectrum.Payloads.State.{Desk, update_roster, with_user}

-- pbnetwork::Buddy
pub record BuddyPayload : Type 0 where
  pub username : Text
  pub buddyname : Text
  pub alias : Text
  pub groups : List Text
  pub icon_hash : Text

-- `replace_invalid` makes valid UTF-8 of a group.
unfoldable pub handle_buddy_payload : (Text → Text) → ℕ → BuddyPayload → Roster → Roster
handle_buddy_payload replace_invalid a p s =
    let named = if is_empty p.alias then s else set_alias a p.alias s in
    let grouped =
      if is_empty p.groups then named else set_groups a (map replace_invalid p.groups) named in
    set_icon_hash a p.icon_hash grouped

unfoldable pub new_buddy : Bool → BuddyPayload → Roster → Roster
new_buddy escaped p s = set_live s.next true (
    set_buddy_at s.next
      (record {
        id = none;
        name = p.buddyname;
        alias = p.alias;
        groups = p.groups;
        subscription = Subscription.ask;
        escaped = escaped;
        icon_hash = [];
      })
      (record s { next = s.next + 1 }))

module _ (lower replace_invalid : Text → Text) (is_valid : Bool → Text → Bool)
    (escaping : Bool) where
  -- `uin` is the user's own name. A buddy whose JID is not valid is deleted again.
  unfoldable pub change_buddy : Text → BuddyPayload → Option ℕ → Roster → Roster
  change_buddy uin p (some a) s = handle_buddy_payload replace_invalid a p s
  change_buddy uin p none s =
      if p.buddyname == uin
      then s
      else if is_valid escaping p.buddyname
      then set_icon_hash s.next p.icon_hash (set_buddy lower s.next (new_buddy escaping p s))
      else s

  unfoldable pub change_in_roster : Text → BuddyPayload → Roster → Roster
  change_in_roster uin p s =
      let found = get_buddy lower p.buddyname s in change_buddy uin p found.0 found.1

  module _ {J D : Type 0} (host : Users.Host J D) where
    unfoldable pub handle_buddy_changed_payload : BuddyPayload → Desk J D → Desk J D
    handle_buddy_changed_payload p =
        with_user host p.username
          (λ u s. update_roster u (change_in_roster (s.manager.info u).uin p (s.roster u)) s)

    unfoldable pub handle_buddy_removed_payload : Text → Text → Desk J D → Desk J D
    handle_buddy_removed_payload name buddy =
        with_user host name (λ u s. update_roster u (remove_buddy lower buddy (s.roster u)) s)

-- ===== src/Payloads/Rosters.antt =====
-- What a message about a buddy does to a roster.
use spectrum.Prelude.{
  ℕ, ◌≡◌, refl, sym, ap, ◌∙◌, Bool, true, false, not, ◌&&◌, List, Option, none, some, Text, nat_eq,
  text_eq, ◌==◌, if◌then◌else◌, is_empty, map, arith, if_cases, Bool-cases, ◌⊎◌, inl, inr,
}
use spectrum.Prelude.Maps.{lookup}
use spectrum.Roster.Store.{Buddy, Effect, Roster, emit, set_buddy_at, found, get_buddy, set_buddy}
use spectrum.Roster.Storage.{set_alias, set_groups, set_icon_hash}
use spectrum.Roster.Found.{
  find, Same, queue_buddy-Same, find-get_buddy, get_buddy-find, others-get_buddy, find-set_buddy,
}
use spectrum.Roster.Verdict.{Keyed, get_buddy-Keyed}
use spectrum.Payloads.Buddies.{
  BuddyPayload, handle_buddy_payload, new_buddy, change_buddy, change_in_roster,
}

Same-trans : {s t v : Roster} → Same s t → Same t v → Same s v
Same-trans f g = record {
  buddies = g.buddies ∙ f.buddies;
  live = g.live ∙ f.live;
  names = λ a. g.names a ∙ f.names a;
  asks = λ a. g.asks a ∙ f.asks a;
  mode = g.mode ∙ f.mode;
}

emit-Same : (x : Effect) (s : Roster) → Same s (emit x s)
emit-Same x s = record {
  buddies = refl;
  live = refl;
  names = λ a. refl;
  asks = λ a. refl;
  mode = refl;
}

set_buddy_at-Same :
    (a : ℕ) (x : Buddy) (s : Roster)
    → x.name ≡ (s.buddy a).name
    → x.subscription ≡ (s.buddy a).subscription
    → Same s (set_buddy_at a x s)
set_buddy_at-Same a x s n k = record {
  buddies = refl;
  live = refl;
  names = λ b. ground arith;
  asks = λ b. ground arith;
  mode = refl;
}

set_alias-Same : (a : ℕ) (alias : Text) (s : Roster) → Same s (set_alias a alias s)
unfolding set_alias
set_alias-Same a alias s =
    let t = set_buddy_at a (record (s.buddy a) { alias = alias }) s in
    let r = set_buddy_at-Same a (record (s.buddy a) { alias = alias }) s refl refl in
    if_cases (Same s) _ t _ (λ h. r)
      (λ h. Same-trans (Same-trans r (emit-Same (Effect.do_update a) t)) (queue_buddy-Same a _))

set_groups-Same : (a : ℕ) (groups : List Text) (s : Roster) → Same s (set_groups a groups s)
unfolding set_groups
set_groups-Same a groups s =
    let t = set_buddy_at a (record (s.buddy a) { groups = groups }) s in
    let r = set_buddy_at-Same a (record (s.buddy a) { groups = groups }) s refl refl in
    if_cases (Same s) _ t _ (λ h. r)
      (λ h. Same-trans (Same-trans r (emit-Same (Effect.do_update a) t)) (queue_buddy-Same a _))

set_icon_hash-Same : (a : ℕ) (hash : Text) (s : Roster) → Same s (set_icon_hash a hash s)
unfolding set_icon_hash
set_icon_hash-Same a hash s =
    let t = set_buddy_at a (record (s.buddy a) { icon_hash = hash }) s in
    let r = set_buddy_at-Same a (record (s.buddy a) { icon_hash = hash }) s refl refl in
    if_cases (Same s) _ t _ (λ h. r)
      (λ h.
        Same-trans (Same-trans r (queue_buddy-Same a t)) (emit-Same (Effect.send_presences a) _))

Same-refl : (s : Roster) → Same s s
Same-refl s = record {
  buddies = refl;
  live = refl;
  names = λ a. refl;
  asks = λ a. refl;
  mode = refl;
}

handle_buddy_payload-Same :
    (replace_invalid : Text → Text) (a : ℕ) (p : BuddyPayload) (s : Roster)
    → Same s (handle_buddy_payload replace_invalid a p s)
unfolding handle_buddy_payload
handle_buddy_payload-Same replace_invalid a p s =
    let named = if is_empty p.alias then s else set_alias a p.alias s in
    let first =
      if_cases (Same s) (is_empty p.alias) s _ (λ h. Same-refl s)
        (λ h. set_alias-Same a p.alias s) in
    let second =
      if_cases (Same s) (is_empty p.groups) named _ (λ h. first)
        (λ h. Same-trans first (set_groups-Same a (map replace_invalid p.groups) named)) in
    Same-trans second (set_icon_hash-Same a p.icon_hash _)

find-Same : {s t : Roster} (key : Text) → Same s t → find key t ≡ find key s
find-Same key r = ap (λ m. found (lookup key m)) r.buddies

Keyed-Same : (lower : Text → Text) {s t : Roster} → Same s t → Keyed lower s → Keyed lower t
Keyed-Same lower r keyed = record {
  named = λ key a h. ap lower (r.names a) ∙ keyed.named key a (sym (find-Same key r) ∙ h);
  alive = λ key a h. ap (λ f. f a) r.live ∙ keyed.alive key a (sym (find-Same key r) ∙ h);
}

-- Whether a message makes a buddy of somebody who is not in the roster.
abbrev pub is_new : (Bool → Text → Bool) → Bool → Text → BuddyPayload → Option ℕ → Bool
is_new is_valid escaping uin p (some a) = false
is_new is_valid escaping uin p none = not (p.buddyname == uin) && is_valid escaping p.buddyname

module _ (lower replace_invalid : Text → Text) (is_valid : Bool → Text → Bool)
    (escaping : Bool) where
  -- A roster with a buddy `p` at a new address.
  module _ (p : BuddyPayload) (s : Roster) (keyed : Keyed lower s)
      (fresh : s.live s.next ≡ false) where
    find-added :
        (key : Text)
        → find key (set_buddy lower s.next (new_buddy escaping p s))
          ≡ (if lower p.buddyname == key then some s.next else find key s)
    unfolding new_buddy
    find-added key = find-set_buddy lower s.next key (new_buddy escaping p s) ∙ ground arith

    names-added :
        (a : ℕ)
        → ((set_buddy lower s.next (new_buddy escaping p s)).buddy a).name
          ≡ (if s.next == a then p.buddyname else (s.buddy a).name)
    unfolding set_buddy new_buddy
    names-added a = (queue_buddy-Same s.next _).names a ∙ ground arith

    live-added :
        (a : ℕ)
        → (set_buddy lower s.next (new_buddy escaping p s)).live a
          ≡ (if s.next == a then true else s.live a)
    unfolding set_buddy new_buddy
    live-added a = ap (λ f. f a) (queue_buddy-Same s.next _).live

    -- The new buddy is under the key, or one who was there.
    added_cases :
        (key : Text) (a : ℕ)
        → find key (set_buddy lower s.next (new_buddy escaping p s)) ≡ some a
        → ((lower p.buddyname ≡ key) × (s.next ≡ a)) ⊎ (find key s ≡ some a)
    added_cases key a h = elim (Bool-cases (lower p.buddyname == key)) [
      | inl e ↦
          inl ((text_eq.same_iff (lower p.buddyname) key).0 e, ground (arith, find-added key, h, e))
      | inr e ↦ inr (ground (arith, find-added key, h, e))
    ]

    older : (key : Text) (a : ℕ) → find key s ≡ some a → (s.next == a) ≡ false
    older key a h = ground (arith, keyed.alive key a h, fresh)

    added-Keyed : Keyed lower (set_buddy lower s.next (new_buddy escaping p s))
    added-Keyed = record {
      named = λ key a h. elim (added_cases key a h) [
        | inl (n, e) ↦ ap lower (names-added a) ∙ ground (arith, n, e)
        | inr g ↦ ap lower (names-added a) ∙ rw (older key a g) (keyed.named key a g)
      ];
      alive = λ key a h. live-added a ∙ (elim (added_cases key a h) [
        | inl (n, e) ↦ ground (arith, e)
        | inr g ↦ rw (older key a g) (keyed.alive key a g)
      ]);
    }

  abbrev Changed : Text → BuddyPayload → Option ℕ → Roster → Roster → Type 0
  Changed uin p here s t =
      Keyed lower t
      × ((key : Text)
          → find key t ≡ (
              if is_new is_valid escaping uin p here && (lower p.buddyname == key)
              then some s.next
              else find key s))

  change_buddy-Changed :
      (uin : Text) (p : BuddyPayload) (here : Option ℕ) (s : Roster)
      → Keyed lower s
      → s.live s.next ≡ false
      → Changed uin p here s (change_buddy lower replace_invalid is_valid escaping uin p here s)
  unfolding change_buddy
  change_buddy-Changed uin p (some a) s keyed fresh =
      let r = handle_buddy_payload-Same replace_invalid a p s in
      (Keyed-Same lower r keyed, λ key. find-Same key r)
  change_buddy-Changed uin p none s keyed fresh =
      if_cases (Changed uin p none s) (p.buddyname == uin) s _ (λ h. (keyed, λ key. rw h refl))
        (λ h.
          if_cases (Changed uin p none s) (is_valid escaping p.buddyname) _ s
            (λ v.
              let r =
                set_icon_hash-Same s.next p.icon_hash
                  (set_buddy lower s.next (new_buddy escaping p s)) in
              (
                Keyed-Same lower r (added-Keyed p s keyed fresh),
                λ key. find-Same key r ∙ find-added p s keyed fresh key ∙ rw h (rw v refl),
              ))
            (λ v. (keyed, λ key. rw h (rw v refl))))

  pub change_in_roster-Keyed :
      (uin : Text) (p : BuddyPayload) (s : Roster)
      → Keyed lower s
      → s.live s.next ≡ false
      → (let t = change_in_roster lower replace_invalid is_valid escaping uin p s in
          let added = is_new is_valid escaping uin p (find (lower p.buddyname) s) in
          Keyed lower t
          × ((key : Text)
              → find key t
                ≡ (if added && (lower p.buddyname == key) then some s.next else find key s)))
  unfolding change_in_roster
  change_in_roster-Keyed uin p s keyed fresh =
      let got = (get_buddy lower p.buddyname s).1 in
      let same = others-get_buddy lower p.buddyname s in
      let r =
        change_buddy-Changed uin p (get_buddy lower p.buddyname s).0 got
          (get_buddy-Keyed lower p.buddyname s keyed)
          (ap (λ f. f got.next) same.0 ∙ ap s.live same.3 ∙ fresh) in
      (
        r.0,
        λ key.
            r.1 key
            ∙ rw (get_buddy-find lower p.buddyname s)
                (rw (same.3) (rw (find-get_buddy lower p.buddyname key s) refl)),
      )

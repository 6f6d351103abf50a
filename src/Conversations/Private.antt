-- ===== src/Conversations/Private.antt =====
-- The private conversations of a room whose conversation is removed.
use spectrum.Prelude.{
  ℕ, ◌≡◌, ◌≢◌, refl, ap, ◌∙◌, true, false, List, [], ◌∷◌, ◌++◌, some, Text, nat_eq, text_eq, ◌==◌,
  beq_ne, if◌then◌else◌, length, length-append, arith,
}
use spectrum.Prelude.Maps.{Map, lookup, erase, lookup-erase}
use spectrum.Prelude.Members.{contains}
use spectrum.Conversations.State.{Conversation, set_room}
use spectrum.Conversations.Manager.{
  ConversationManager, update_conv, for_each, leave_if_of, remove_conversation,
}

abbrev addresses : Map Text ℕ → List ℕ
addresses [] = []
addresses ((_, a) ∷ m) = a ∷ addresses m

contains-lookup :
    (k : Text) (a : ℕ) (m : Map Text ℕ) → lookup k m ≡ some a → contains a (addresses m) ≡ true
unfolding lookup
contains-lookup k a [] h = cc
contains-lookup k a ((j, b) ∷ m) h = ground (arith, contains-lookup k a m)

longer : (a b : Text) → length a ≢ length b → (a == b) ≡ false
longer a b h = beq_ne a b (λ e. h (ap length e))

module _ {J : Type 0} where
  convs-for_each :
      (f : Conversation J → Conversation J) (m : Map Text ℕ) (s : ConversationManager J)
      → (for_each f m s).convs ≡ s.convs
  unfolding for_each
  convs-for_each f [] s = refl
  convs-for_each f ((k, a) ∷ m) s = convs-for_each f m (update_conv a f s)

  -- Done twice, the change does no more than once.
  conv-for_each :
      (f : Conversation J → Conversation J) (m : Map Text ℕ) (s : ConversationManager J) (a : ℕ)
      → ((c : Conversation J) → f (f c) ≡ f c)
      → (for_each f m s).conv a ≡ (if contains a (addresses m) then f (s.conv a) else s.conv a)
  unfolding for_each
  conv-for_each f [] s a h = refl
  conv-for_each f ((k, b) ∷ m) s a h =
      conv-for_each f m (update_conv b f s) a h ∙ ground (arith, h (s.conv a), nat_eq.same_iff b a)

  leave_twice :
      (name : Text) (c : Conversation J)
      → ([] == name) ≡ false
      → leave_if_of name (leave_if_of name c) ≡ leave_if_of name c
  unfolding leave_if_of set_room
  leave_twice name c h = ground (arith, h)

  left_alone :
      (name : Text) (c : Conversation J) → (c.room == name) ≡ false → leave_if_of name c ≡ c
  unfolding leave_if_of
  left_alone name c h = rw h refl

  -- A conversation of no room that is removed: its key goes, and those of its room change.
  conv-remove_conversation :
      (r a : ℕ) (s : ConversationManager J)
      → ([] == (s.conv r).legacy_name) ≡ false
      → (remove_conversation r s).conv a ≡ (
          if contains a (addresses s.convs)
          then leave_if_of (s.conv r).legacy_name (s.conv a)
          else s.conv a)
  unfolding remove_conversation
  conv-remove_conversation r a s h =
      conv-for_each (leave_if_of (s.conv r).legacy_name) s.convs s a
        (λ c. leave_twice (s.conv r).legacy_name c h)

  convs-remove_conversation :
      (r : ℕ) (s : ConversationManager J)
      → ([] == (s.conv r).legacy_name) ≡ false
      → ((s.conv r).room == (s.conv r).legacy_name) ≡ false
      → (remove_conversation r s).convs ≡ erase (s.conv r).legacy_name s.convs
  unfolding remove_conversation
  convs-remove_conversation r s h own =
      let same =
        conv-for_each (leave_if_of (s.conv r).legacy_name) s.convs s r
          (λ c. leave_twice (s.conv r).legacy_name c h) in
      ground (
        arith,
        same,
        left_alone (s.conv r).legacy_name (s.conv r) own,
        convs-for_each (leave_if_of (s.conv r).legacy_name) s.convs s,
      )

  -- For a room with a name and a private conversation of it (named, and found in the map, by the
  -- room's name, a slash and a nickname): when the room's conversation is removed, the private one
  -- stays in the map under its name but calls itself that name with a slash before it; so when it is
  -- removed in turn, it is still found in the map.
  pub remove_conversation-stale :
      (r p : ℕ) (nick : Text) (s : ConversationManager J)
      → ([] == (s.conv r).legacy_name) ≡ false
      → (s.conv r).room ≡ []
      → (s.conv p).room ≡ (s.conv r).legacy_name
      → (s.conv p).legacy_name ≡ (s.conv r).legacy_name ++ 47 ∷ nick
      → lookup (s.conv p).legacy_name s.convs ≡ some p
      → (((remove_conversation r s).conv p).legacy_name ≡ 47 ∷ (s.conv p).legacy_name)
        × (lookup (s.conv p).legacy_name (remove_conversation r s).convs ≡ some p)
        × (lookup (s.conv p).legacy_name (remove_conversation p (remove_conversation r s)).convs
            ≡ some p)
  unfolding leave_if_of set_room
  remove_conversation-stale r p nick s named chat of_room name here =
      let t = remove_conversation r s in
      let room : Text = (s.conv r).legacy_name in
      let key : Text = (s.conv p).legacy_name in
      let after : t.conv p ≡ set_room [] (s.conv p) =
        conv-remove_conversation r p s named
        ∙ ground
            (arith, contains-lookup key p s.convs here, text_eq.same_iff (s.conv p).room room) in
      let apart : (room == key) ≡ false =
        longer room key
          (λ e. absurd (omega (arith, e, ap length name, length-append room (47 ∷ nick)))) in
      let first : t.convs ≡ erase room s.convs =
        convs-remove_conversation r s named (rw chat named) in
      let stays : lookup key t.convs ≡ some p =
        ap (lookup key) first ∙ ground (arith, lookup-erase room key s.convs) in
      let stale : (t.conv p).legacy_name ≡ 47 ∷ key = ap (λ c. c.legacy_name) after in
      let no_text : ([] == 47 ∷ key) ≡ false =
        longer [] (47 ∷ key) (λ e. absurd (omega (arith, e))) in
      let other : (47 ∷ key == key) ≡ false =
        longer (47 ∷ key) key (λ e. absurd (omega (arith, e))) in
      let second : (remove_conversation p t).convs ≡ erase (47 ∷ key) t.convs =
        convs-remove_conversation p t (rw stale no_text)
          (rw (ap (λ c. c.room) after, stale) no_text)
        ∙ ap (λ k. erase k t.convs) stale in
      (stale, stays, ap (lookup key) second ∙ ground (arith, lookup-erase (47 ∷ key) key t.convs))

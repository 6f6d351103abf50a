-- ===== src/Conversations/Cached.antt =====
-- The messages that a conversation keeps for later.
use spectrum.Prelude.{
  ℕ, zero, suc, ◌-◌, ◌≤◌, ◌<◌, ◌≡◌, refl, sym, ap, ◌∙◌, Bool, true, false, ◌&&◌, List, [], ◌∷◌,
  ◌++◌, Option, none, some, ltb, ltb→lt, lt→ltb, if◌then◌else◌, is_empty, length, length-append,
  length-drop, drop, Bool-cases, inl, inr, arith,
}
use spectrum.Conversations.State.{Message, Sent, Conversation, Transport, emit}
use spectrum.Conversations.Messages.{
  cache_message, is_groupchat, own_subject, send_room, handle_raw_message, send_all, send_subject,
  send_cached_messages,
}

module _ {ℓ} {A : Type ℓ} where
  -- The last entries of a list.
  abbrev pub last : ℕ → List A → List A
  last n xs = drop (length xs - n) xs

  drop-append_le : (k : ℕ) (xs ys : List A) → k ≤ length xs → drop k (xs ++ ys) ≡ drop k xs ++ ys
  drop-append_le zero xs ys h = refl
  drop-append_le (suc k) [] ys h = absurd (omega arith)
  drop-append_le (suc k) (x ∷ xs) ys h = drop-append_le k xs ys (omega arith)

  drop_one : (k : ℕ) (xs : List A) → drop 1 (drop k xs) ≡ drop (suc k) xs
  drop_one zero xs = refl
  drop_one (suc k) [] = refl
  drop_one (suc k) (x ∷ xs) = drop_one k xs

  -- One more entry at the end, and the first one out where there are more than `suc n`.
  last-snoc :
      (n : ℕ) (xs : List A) (x : A)
      → (if ltb (suc n) (length (last (suc n) xs ++ x ∷ []))
          then drop 1 (last (suc n) xs ++ x ∷ [])
          else last (suc n) xs ++ x ∷ [])
        ≡ last (suc n) (xs ++ x ∷ [])
  last-snoc n xs x = elim (Bool-cases (ltb n (length xs))) [
    | inl big ↦
        let lt : n < length xs = ltb→lt n (length xs) big in
        let full : length (last (suc n) xs ++ x ∷ []) ≡ suc (suc n) = omega (
          arith,
          lt,
          length-append (last (suc n) xs) (x ∷ []),
          length-drop (length xs - suc n) xs,
        ) in
        let more : ltb (suc n) (length (last (suc n) xs ++ x ∷ [])) ≡ true =
          lt→ltb _ _ (omega (arith, full)) in
        let room : length (xs ++ x ∷ []) - suc n ≡ suc (length xs - suc n) =
          omega (arith, lt, length-append xs (x ∷ [])) in
        rw (more, room)
          (drop-append_le 1 (last (suc n) xs) (x ∷ [])
              (omega (arith, lt, length-drop (length xs - suc n) xs))
            ∙ ap (λ ys. ys ++ x ∷ []) (drop_one (length xs - suc n) xs)
            ∙ sym (drop-append_le (suc (length xs - suc n)) xs (x ∷ []) (omega (arith, lt))))
    | inr small ↦
        let all : length xs - suc n ≡ 0 = ground arith in
        let whole : length (xs ++ x ∷ []) - suc n ≡ 0 = ground (arith, length-append xs (x ∷ [])) in
        let none_out : ltb (suc n) (length (xs ++ x ∷ [])) ≡ false =
          ground (arith, length-append xs (x ∷ [])) in
        rw (all, whole, none_out) refl
  ]

module _ {J : Type 0} where
  -- What stays as it is when stanzas are sent.
  record Kept (c d : Conversation J) : Type 0 where
    pub cached : d.cached_messages ≡ c.cached_messages
    pub members : d.jids ≡ c.jids

  Kept-trans : {c d e : Conversation J} → Kept c d → Kept d e → Kept c e
  Kept-trans a b = record { cached = b.cached ∙ a.cached; members = b.members ∙ a.members }

  send_room-Kept : (js : List J) (m : Message J) (c : Conversation J) → Kept c (send_room js m c)
  unfolding send_room
  send_room-Kept [] m c = record { cached = refl; members = refl }
  send_room-Kept (j ∷ js) m c =
      let m' = record m { receiver = j } in
      let kept = if is_empty (own_subject m) then c else record c { subject = some m' } in
      let here : Kept c kept = record { cached = ground arith; members = ground arith } in
      let sent : Kept kept (emit (Sent.message m') kept) = record {
        cached = refl;
        members = refl;
      } in
      let rest =
        Kept-trans here (Kept-trans sent (send_room-Kept js m (emit (Sent.message m') kept))) in
      record { cached = ground (arith, here, rest); members = ground (arith, here, rest) }

  send_all-Kept : (to : J) (ms : List (Message J)) (c : Conversation J) → Kept c (send_all to ms c)
  unfolding send_all
  send_all-Kept to [] c = record { cached = refl; members = refl }
  send_all-Kept to (m ∷ ms) c =
      let rest = send_all-Kept to ms (emit (Sent.message (record m { receiver = to })) c) in
      record { cached = rest.cached; members = rest.members }

  send_subject-Kept :
      (to : J) (o : Option (Message J)) (c : Conversation J) → Kept c (send_subject to o c)
  unfolding send_subject
  send_subject-Kept to none c = record { cached = refl; members = refl }
  send_subject-Kept to (some m) c = record { cached = refl; members = refl }

-- What reaches a room or chat: a message (with what `shouldCacheMessages` answers), a client who reads
-- what was kept, and a change of the clients in the room.
pub data Occurrence (J : Type 0) : Type 0 where
  raw : Bool → Message J → Occurrence J
  flush : J → Occurrence J
  members : List J → Occurrence J

module _ {J : Type 0} (transport : Transport J) where
  unfoldable pub occur : Occurrence J → Conversation J → Conversation J
  occur (Occurrence.raw caches m) c = handle_raw_message transport caches m c
  occur (Occurrence.flush to) c = send_cached_messages transport to c
  occur (Occurrence.members js) c = record c { jids = js }

  unfoldable pub occur_all : List (Occurrence J) → Conversation J → Conversation J
  occur_all [] c = c
  occur_all (x ∷ xs) c = occur_all xs (occur x c)

  -- Nobody can read the message now: the room has no client, or in server mode the user is away.
  abbrev pub is_kept : Bool → Message J → List J → Bool
  is_kept caches m js = if is_groupchat m.kind then is_empty js else transport.server_mode && caches

  -- All the messages that nobody could read since the last time that somebody read them.
  abbrev pub unread : List (Occurrence J) → List J → List (Message J) → List (Message J)
  unread [] js log = log
  unread (Occurrence.raw caches m ∷ xs) js log =
      unread xs js (if is_kept caches m js then log ++ record m { is_delayed = true } ∷ [] else log)
  unread (Occurrence.flush to ∷ xs) js log = unread xs js []
  unread (Occurrence.members more ∷ xs) js log = unread xs more log

  -- The messages kept are the last 100 of `log`.
  abbrev Keeps : List (Message J) → Conversation J → Type 0
  Keeps log c = c.cached_messages ≡ last 100 log

  cache_message-Keeps :
      (m : Message J) (log : List (Message J)) (c : Conversation J)
      → Keeps log c
      → Keeps (log ++ record m { is_delayed = true } ∷ []) (cache_message m c)
  unfolding cache_message
  cache_message-Keeps m log c e = rw e (last-snoc 99 log (record m { is_delayed = true }))

  raw-kept :
      (caches : Bool) (m : Message J) (c : Conversation J)
      → is_kept caches m c.jids ≡ true
      → handle_raw_message transport caches m c ≡ cache_message m c
  unfolding handle_raw_message
  raw-kept caches m c h = ground arith

  raw-Kept :
      (caches : Bool) (m : Message J) (c : Conversation J)
      → is_kept caches m c.jids ≡ false
      → Kept c (handle_raw_message transport caches m c)
  unfolding handle_raw_message
  raw-Kept caches m c h =
      let sent = send_room-Kept c.jids m c in
      record { cached = ground (arith, sent); members = ground (arith, sent) }

  jids-cache_message : (m : Message J) (c : Conversation J) → (cache_message m c).jids ≡ c.jids
  unfolding cache_message
  jids-cache_message m c = refl

  abbrev Step : Occurrence J → List (Message J) → Conversation J → Type 0
  Step x log c =
      (rest : List (Occurrence J))
      → (log' : List (Message J)) × Keeps log' (occur x c)
        × (unread (x ∷ rest) c.jids log ≡ unread rest (occur x c).jids log')

  occur-Keeps :
      (x : Occurrence J) (log : List (Message J)) (c : Conversation J) → Keeps log c → Step x log c
  unfolding occur send_cached_messages
  occur-Keeps (Occurrence.raw caches m) log c e rest = elim (Bool-cases (is_kept caches m c.jids)) [
    | inl kept ↦ (
      log ++ record m { is_delayed = true } ∷ [],
      rw (raw-kept caches m c kept) (cache_message-Keeps m log c e),
      ground (arith, raw-kept caches m c kept, jids-cache_message m c),
    )
    | inr told ↦ let same = raw-Kept caches m c told in (log, same.cached ∙ e, ground (arith, same))
  ]
  occur-Keeps (Occurrence.flush to) log c e rest =
      let target = if transport.is_valid to then to else transport.to_bare c.jid in
      let sent =
        Kept-trans (send_all-Kept target c.cached_messages c)
          (send_subject-Kept target c.subject (send_all target c.cached_messages c)) in
      ([], refl, ap (λ js. unread rest js []) (sym sent.members))
  occur-Keeps (Occurrence.members js) log c e rest = (log, e, refl)

  occur_all-Keeps :
      (xs : List (Occurrence J)) (log : List (Message J)) (c : Conversation J)
      → Keeps log c
      → Keeps (unread xs c.jids log) (occur_all xs c)
  unfolding occur_all
  occur_all-Keeps [] log c e = e
  occur_all-Keeps (x ∷ xs) log c e =
      let (log', kept, same) = occur-Keeps x log c e xs in
      rw same (occur_all-Keeps xs log' (occur x c) kept)

  length-last : (n : ℕ) (log : List (Message J)) → length (last n log) ≤ n
  length-last n log = omega (arith, length-drop (length log - n) log)

  -- From a conversation that keeps nothing, after any messages, readers and changes of the clients in
  -- the room: what it keeps is the last 100, in order and stamped as delayed, of the messages that came
  -- since somebody last read and that nobody could get at once (a room's message while the room had no
  -- client, or in server mode a chat message of a user who is away); so never more than 100.
  pub cached_messages-last :
      (xs : List (Occurrence J)) (c : Conversation J)
      → c.cached_messages ≡ []
      → ((occur_all xs c).cached_messages ≡ last 100 (unread xs c.jids []))
        × (length (occur_all xs c).cached_messages ≤ 100)
  cached_messages-last xs c e =
      let all = occur_all-Keeps xs [] c e in (all, rw all (length-last 100 (unread xs c.jids [])))

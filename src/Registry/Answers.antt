-- ===== src/Registry/Answers.antt =====
-- A session is answered at most as often as it asked.
use spectrum.Prelude.{
  ℕ, ◌+◌, ◌≤◌, ◌≡◌, Bool, true, List, [], ◌∷◌, ◌++◌, none, some, arith, Text, text_eq, nat_eq, ◌==◌,
  if◌then◌else◌, Option-cases, inl, inr,
}
use spectrum.Prelude.Maps.{Map, lookup, insert, erase, lookup-insert_self}
use spectrum.Registry.{
  Login, Event, Registry, emit, replace_session, is_valid_user_password, stop_session, stop_login,
  on_password_valid, on_password_invalid, handle_remove_timeout, Call, call, run,
}

abbrev one : Bool → ℕ
one b = if b then 1 else 0

-- How often a session was answered, how often it is being checked, and how often it asked.
module _ {J : Type 0} (n : ℕ) where
  abbrev answer : Event J → ℕ
  answer (Event.password_valid m) = one (m == n)
  answer (Event.password_invalid m) = one (m == n)
  answer (Event.connect_user j) = 0
  answer (Event.disconnect_user j) = 0

  abbrev pub answers : List (Event J) → ℕ
  answers [] = 0
  answers (x ∷ xs) = answer x + answers xs

  abbrev asking : Call J → ℕ
  asking (Call.login j m p) = one (m == n)
  asking (Call.stop j m) = 0
  asking (Call.valid j) = 0
  asking (Call.invalid j) = 0
  asking (Call.timeout j) = 0

  abbrev pub asks : List (Call J) → ℕ
  asks [] = 0
  asks (c ∷ cs) = asking c + asks cs

  answers-append : (xs ys : List (Event J)) → answers (xs ++ ys) ≡ answers xs + answers ys
  answers-append [] ys = omega arith
  answers-append (x ∷ xs) ys = omega (arith, answers-append xs ys)

module _ (n : ℕ) where
  abbrev pub held : Map Text Login → ℕ
  held [] = 0
  held ((k, l) ∷ m) = one (l.session == n) + held m

  held-insert_old :
      (k : Text) (l x : Login) (m : Map Text Login)
      → lookup k m ≡ some x
      → held (insert k l m) + one (x.session == n) ≡ held m + one (l.session == n)
  unfolding lookup insert
  held-insert_old k l x [] e = cc
  held-insert_old k l x ((j, w) ∷ m) e = ground (arith, held-insert_old k l x m)

  held-insert_new :
      (k : Text) (l : Login) (m : Map Text Login)
      → lookup k m ≡ none
      → held (insert k l m) ≡ held m + one (l.session == n)
  unfolding lookup insert
  held-insert_new k l [] e = omega arith
  held-insert_new k l ((j, w) ∷ m) e = ground (arith, held-insert_new k l m)

  held-erase_le : (k : Text) (m : Map Text Login) → held (erase k m) ≤ held m
  unfolding erase
  held-erase_le k [] = omega arith
  held-erase_le k ((j, w) ∷ m) = ground (arith, held-erase_le k m)

  held-erase :
      (k : Text) (x : Login) (m : Map Text Login)
      → lookup k m ≡ some x
      → held (erase k m) + one (x.session == n) ≤ held m
  unfolding lookup erase
  held-erase k x [] e = cc
  held-erase k x ((j, w) ∷ m) e = ground (arith, held-erase k x m, held-erase_le k m)

module _ {J : Type 0} (bare : J → Text) (n : ℕ) where
  -- What is owed to a session: answers given, and a login under way.
  abbrev pub owed : Registry J → ℕ
  owed s = answers n s.events + held n s.users

  owed-emit : (x : Event J) (s : Registry J) → owed (emit bare x s) ≡ owed s + answer n x
  owed-emit x s = omega (arith, answers-append n s.events (x ∷ []))

  module _ (key : Text) (m : ℕ) (p : Text) (s : Registry J) where
    abbrev entry : Login
    entry = record { password = p; session = m }

    owed-replace :
        answers n (replace_session bare key m s).events
          + held n (insert key entry (replace_session bare key m s).users)
        ≡ owed s + one (m == n)
    unfolding replace_session
    owed-replace = elim (Option-cases (lookup key s.users)) [
      | inl e ↦ ground (arith, e, held-insert_new n key entry s.users e)
      | inr (l, e) ↦
          let moved : Login = record l { session = m } in
          ground (
            arith,
            e,
            answers-append n s.events (Event.password_invalid l.session ∷ []),
            held-insert_old n key moved l s.users e,
            held-insert_old n key entry moved (insert key moved s.users)
                (lookup-insert_self key moved s.users),
          )
    ]

  asked :
      (j : J) (m : ℕ) (p : Text) (s : Registry J)
      → owed (is_valid_user_password bare j m p s) ≤ owed s + one (m == n)
  unfolding is_valid_user_password
  asked j m p s = ground (
    arith,
    owed-replace (bare j) m p s,
    answers-append n s.events (Event.password_valid m ∷ []),
    answers-append n s.events (Event.password_invalid m ∷ []),
    answers-append n (replace_session bare (bare j) m s).events (Event.connect_user j ∷ []),
  )

  stopped_session :
      (key : Text) (m : ℕ) (s : Registry J) → owed (stop_session bare key m s) ≤ owed s
  unfolding stop_session
  stopped_session key m s = ground (arith, held-erase_le n key s.users)

  stopped : (j : J) (m : ℕ) (s : Registry J) → owed (stop_login bare j m s) ≤ owed s
  unfolding stop_login
  stopped j m s = ground (
    arith,
    stopped_session (bare j) m s,
    answers-append n (stop_session bare (bare j) m s).events (Event.disconnect_user j ∷ []),
  )

  answered : (j : J) (s : Registry J) → owed (on_password_valid bare j s) ≤ owed s
  unfolding on_password_valid
  answered j s = elim (Option-cases (lookup (bare j) s.users)) [
    | inl e ↦ ground (arith, e)
    | inr (l, e) ↦ ground (
      arith,
      e,
      held-erase n (bare j) l s.users e,
      answers-append n s.events (Event.password_valid l.session ∷ []),
    )
  ]

  refused : (j : J) (s : Registry J) → owed (on_password_invalid bare j s) ≤ owed s
  unfolding on_password_invalid
  refused j s = elim (Option-cases (lookup (bare j) s.users)) [
    | inl e ↦ ground (arith, e)
    | inr (l, e) ↦ ground (
      arith,
      e,
      held-erase n (bare j) l s.users e,
      answers-append n s.events (Event.password_invalid l.session ∷ []),
    )
  ]

  timed_out : (j : J) (s : Registry J) → owed (handle_remove_timeout bare j s) ≤ owed s
  unfolding handle_remove_timeout
  timed_out j s = refused j (record s { in_remove_later = true })

  owed-call : (c : Call J) (s : Registry J) → owed (call bare c s) ≤ owed s + asking n c
  unfolding call
  owed-call (Call.login j m p) s = asked j m p s
  owed-call (Call.stop j m) s = omega (arith, stopped j m s)
  owed-call (Call.valid j) s = omega (arith, answered j s)
  owed-call (Call.invalid j) s = omega (arith, refused j s)
  owed-call (Call.timeout j) s = omega (arith, timed_out j s)

  owed-run : (cs : List (Call J)) (s : Registry J) → owed (run bare cs s) ≤ owed s + asks n cs
  unfolding run
  owed-run [] s = omega arith
  owed-run (c ∷ cs) s = omega (arith, owed-call c s, owed-run cs (call bare c s))

  -- After any calls to a registry that knows nothing of a session and has told it nothing, the answers
  -- to the session and its logins under way are together at most as many as its login attempts.
  pub run-answers :
      (cs : List (Call J)) (s : Registry J)
      → s.events ≡ []
      → s.users ≡ []
      → answers n (run bare cs s).events + held n (run bare cs s).users ≤ asks n cs
  run-answers cs s e f = ground (arith, owed-run cs s, e, f)

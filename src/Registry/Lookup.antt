-- ===== src/Registry/Lookup.antt =====
-- What a login leaves behind for its user and for all others.
use spectrum.Prelude.{
  ℕ, ◌≡◌, false, none, some, arith, Text, text_eq, nat_eq, ◌==◌, if◌then◌else◌, Option-cases, inl,
  inr, beq_self,
}
use spectrum.Prelude.Maps.{lookup, lookup-insert, lookup-erase}
use spectrum.Prelude.Members.{contains}
use spectrum.Registry.{
  Login, Registry, replace_session, is_valid_user_password, stop_session, stop_login,
}

module _ {J : Type 0} (bare : J → Text) where
  lookup-replace :
      (key other : Text) (n : ℕ) (s : Registry J)
      → (key == other) ≡ false
      → lookup other (replace_session bare key n s).users ≡ lookup other s.users
  unfolding replace_session
  lookup-replace key other n s d = elim (Option-cases (lookup key s.users)) [
    | inl e ↦ ground (arith, e)
    | inr (l, e) ↦ ground (arith, e, d, lookup-insert key other (record l { session = n }) s.users)
  ]

  -- A login of a user who is no admin leaves his session and password under his name, also where
  -- another session of his was being checked, and leaves every other name's entry as it was.
  lookup-login :
      (j : J) (n : ℕ) (p : Text) (s : Registry J) (key : Text)
      → contains (bare j) s.admin_jids ≡ false
      → lookup key (is_valid_user_password bare j n p s).users ≡ (
          if bare j == key then some (record { password = p; session = n }) else lookup key s.users)
  unfolding is_valid_user_password
  lookup-login j n p s key h = ground (
    arith,
    h,
    lookup-replace (bare j) key n s,
    lookup-insert (bare j) key (record { password = p; session = n })
        (replace_session bare (bare j) n s).users,
  )

  -- A session that is no longer the active one of its user cannot stop the login of the active one;
  -- the active one can.
  lookup-stop :
      (j : J) (n : ℕ) (s : Registry J) (l : Login)
      → lookup (bare j) s.users ≡ some l
      → lookup (bare j) (stop_login bare j n s).users ≡ (if l.session == n then none else some l)
  unfolding stop_login stop_session
  lookup-stop j n s l e =
      ground (arith, e, lookup-erase (bare j) (bare j) s.users, beq_self (bare j))

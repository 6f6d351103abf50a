-- ===== src/Reconnecter/Order.antt =====
-- Who was reconnected, after any connections of the component and ticks of the timer.
use spectrum.Prelude.{
  ◌≡◌, refl, sym, ap, ◌∙◌, Bool, true, false, List, [], ◌∷◌, ◌++◌, append_assoc, Text,
  if◌then◌else◌, arith, if_cases,
}
use spectrum.Reconnecter.{
  UsersReconnecter, new_reconnecter, last_of, all_but_last, reconnect, reconnect_from,
  reconnect_next_user, handle_connected,
}

abbrev pub backwards : List Text → List Text
backwards [] = []
backwards (x ∷ xs) = backwards xs ++ x ∷ []

backwards-last :
    (x : Text) (xs : List Text) → last_of x xs ∷ backwards (all_but_last x xs) ≡ backwards (x ∷ xs)
backwards-last x [] = refl
backwards-last x (y ∷ ys) = ap (λ zs. zs ++ x ∷ []) (backwards-last y ys)

-- What is done and what is still to do.
abbrev schedule : UsersReconnecter → List Text
schedule r = r.reconnected ++ backwards r.users

schedule-reconnect :
    (xs : List Text) (r : UsersReconnecter)
    → r.users ≡ xs
    → schedule (reconnect_from xs r) ≡ schedule r
unfolding reconnect_from reconnect
schedule-reconnect [] r e = refl
schedule-reconnect (x ∷ xs) r e =
    append_assoc r.reconnected (last_of x xs ∷ []) (backwards (all_but_last x xs))
    ∙ ap (λ ys. r.reconnected ++ ys) (backwards-last x xs ∙ ap backwards (sym e))

started-reconnect :
    (xs : List Text) (r : UsersReconnecter) → (reconnect_from xs r).started ≡ r.started
unfolding reconnect_from reconnect
started-reconnect [] r = refl
started-reconnect (x ∷ xs) r = refl

module _ (reconnect_all : Bool) (all online : List Text) where
  -- A tick of the timer, or a connection of the component.
  pub data Step : UsersReconnecter → UsersReconnecter → Type 0 where
    tick : (r : UsersReconnecter) → Step r (reconnect_next_user r)
    connected : (r : UsersReconnecter) → Step r (handle_connected reconnect_all all online r)

  pub data Reach : UsersReconnecter → Type 0 where
    here : Reach new_reconnecter
    next : {r t : UsersReconnecter} → Reach r → Step r t → Reach t

  abbrev stored : List Text
  stored = if reconnect_all then all else online

  -- Before the component was connected nobody is scheduled; afterwards everybody who is stored.
  record Inv (r : UsersReconnecter) : Type 0 where
    new : r.started ≡ false → (r.users ≡ []) × (r.reconnected ≡ [])
    old : r.started ≡ true → schedule r ≡ backwards stored

  reconnect_from-Inv :
      (xs : List Text) (r : UsersReconnecter) → r.users ≡ xs → Inv r → Inv (reconnect_from xs r)
  unfolding reconnect_from
  reconnect_from-Inv [] r e i = i
  reconnect_from-Inv (x ∷ xs) r e i = record {
    new = λ h.
        (let n = i.new (sym (started-reconnect (x ∷ xs) r) ∙ h) in
          let none_left : [] ≡ x ∷ xs = sym (n.0) ∙ e in absurd (cc none_left));
    old = λ h. schedule-reconnect (x ∷ xs) r e ∙ i.old (sym (started-reconnect (x ∷ xs) r) ∙ h);
  }

  start-Inv :
      (r : UsersReconnecter)
      → r.started ≡ false
      → Inv r
      → Inv (record r { started = true; users = r.users ++ stored })
  start-Inv r h i = record { new = λ e. absurd (cc); old = λ e. ground (arith, i.new h) }

  Step-Inv : {r t : UsersReconnecter} → Step r t → Inv r → Inv t
  unfolding reconnect_next_user handle_connected
  Step-Inv (tick r) i = reconnect_from-Inv r.users r refl i
  Step-Inv (connected r) i =
      if_cases Inv r.started r _ (λ h. i)
        (λ h. reconnect_from-Inv (r.users ++ stored) _ refl (start-Inv r h i))

  Reach-Inv : (r : UsersReconnecter) → Reach r → Inv r
  unfolding new_reconnecter
  Reach-Inv r here = record { new = λ h. (refl, refl); old = λ h. absurd (cc) }
  Reach-Inv r (next s st) = Step-Inv st (Reach-Inv _ s)

  -- However often the component connects and the timer ticks, once it has connected: the users who
  -- were reconnected, followed by those who are still in the list, the last one first, are the stored
  -- users, the last one first.
  pub reconnected-users :
      (r : UsersReconnecter)
      → Reach r
      → r.started ≡ true
      → r.reconnected ++ backwards r.users ≡ backwards (if reconnect_all then all else online)
  reconnected-users r s h = (Reach-Inv r s).old h

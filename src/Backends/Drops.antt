-- ===== src/Backends/Drops.antt =====
-- The users of a crashed backend, one after the other: `User::handleDisconnected` for each of them.
use spectrum.Prelude.{
  ℕ, ◌+◌, ◌≤◌, ◌≡◌, ◌≢◌, refl, ap, subst, ◌∙◌, inl, inr, Bool, true, false, ◌&&◌, not, List, [],
  ◌∷◌, Option, none, some, arith, nat_eq, ◌==◌, if◌then◌else◌, Bool-cases, beq_self, beq_ne,
  beq_cases, ne_of_beq,
}
use spectrum.Prelude.Members.{contains-count, contains, count}
use spectrum.Backends.Defs.{Server, User, set_user}
use spectrum.Backends.Places.{places, Frame, places-Frame, Inv, Inv-Frame}
use spectrum.Backends.{
  choose, get_free_client, close_if_full, spawn, place_user, attach, handle_user_created,
  handle_user_ready_to_connect, detach, handle_user_destroyed,
}
use spectrum.Backends.Moves.{count-le-places}
use spectrum.Backends.Arrival.{
  places-handle_user_created, handle_user_created-Inv, places-handle_user_destroyed,
  handle_user_destroyed-Inv,
}
use spectrum.Backends.Lifecycle.{
  on_ready_to_connect, reconnect_user, handle_disconnected, drop_users, other_error, reconnects,
}

-- The user is connected to another backend when his own one crashes.
unfoldable pub survives : User → Bool
survives u = not u.ignore_disconnect && reconnects u other_error

on_ready_to_connect-Frame : (u : ℕ) (s : Server) → Frame s (on_ready_to_connect u s)
unfolding on_ready_to_connect handle_user_ready_to_connect
on_ready_to_connect-Frame u s = record {
  clients = ground arith;
  waiting = ground arith;
  backend_of = λ w. ground arith;
  users = λ b. ground arith;
  limit = ground arith;
}

user_of_search :
    (accept long check : Bool) (now pid : ℕ) (s : Server)
    → (get_free_client accept long check now pid s).0.user ≡ s.user
unfolding get_free_client choose close_if_full spawn
user_of_search accept long check now pid s = ground arith

user_of_place : (w u : ℕ) (c : Option ℕ) (s : Server) → u ≢ w → (place_user u c s).user w ≡ s.user w
unfolding place_user attach
user_of_place w u none s h = refl
user_of_place w u (some b) s h = ground (arith, h)

user_of_created :
    (now pid w u : ℕ) (s : Server) → u ≢ w → (handle_user_created now pid u s).user w ≡ s.user w
unfolding handle_user_created
user_of_created now pid w u s h =
    rw
      (user_of_place w u (get_free_client true false false now pid s).1
        (get_free_client true false false now pid s).0 h)
      (ap (λ f. f w) (user_of_search true false false now pid s))

user_of_destroyed : (w u : ℕ) (s : Server) → u ≢ w → (handle_user_destroyed u s).user w ≡ s.user w
unfolding handle_user_destroyed detach
user_of_destroyed w u s h = ground (arith, h)

user_of_ready : (w u : ℕ) (s : Server) → (on_ready_to_connect u s).user w ≡ s.user w
unfolding on_ready_to_connect handle_user_ready_to_connect
user_of_ready w u s = ground arith

-- A user whose fields are set without moving anybody keeps the invariant, where he is nowhere.
module _ (u : ℕ) (x : User) (s : Server) where
  set_user-Inv : Inv s → places u s ≡ 0 → Inv (set_user u x s)
  unfolding places
  set_user-Inv v nowhere = record {
    distinct = v.distinct;
    once = v.once;
    assigned = λ a w p q. ground (arith, v.assigned a w p q, count-le-places w a s p);
    sizes = v.sizes;
  }

  places-set_user : (w : ℕ) → places w (set_user u x s) ≡ places w s
  unfolding places
  places-set_user w = refl

-- Every other user stays where he is and as he is, and the user himself stands in `n` places.
record Handled (u n : ℕ) (s t : Server) : Type 0 where
  inv : Inv t
  here : (w : ℕ) → places w t ≡ (if u == w then n else places w s)
  others : (w : ℕ) → u ≢ w → t.user w ≡ s.user w

module _ (now pid u : ℕ) where
  destroyed-Handled : (s : Server) → Inv s → Handled u 0 s (handle_user_destroyed u s)
  destroyed-Handled s v = record {
    inv = handle_user_destroyed-Inv u s v;
    here = places-handle_user_destroyed u s v;
    others = λ w. user_of_destroyed w u s;
  }

  created-Handled :
      (s : Server) → Inv s → places u s ≡ 0 → Handled u 1 s (handle_user_created now pid u s)
  created-Handled s v h = record {
    inv = handle_user_created-Inv now pid u s v h;
    here = λ w. ground (arith, places-handle_user_created now pid u s v w, h);
    others = λ w. user_of_created now pid w u s;
  }

  ready-Handled : (n : ℕ) (s t : Server) → Handled u n s t → Handled u n s (on_ready_to_connect u t)
  ready-Handled n s t h = record {
    inv = Inv-Frame (on_ready_to_connect-Frame u t) h.inv;
    here = λ w. places-Frame (on_ready_to_connect-Frame u t) w ∙ h.here w;
    others = λ w d. user_of_ready w u t ∙ h.others w d;
  }

  set-Handled : (n : ℕ) (x : User) (s t : Server) → Handled u n (set_user u x s) t → Handled u n s t
  set-Handled n x s t h = record {
    inv = h.inv;
    here = λ w. ground (arith, h.here w, places-set_user u x s w);
    others = λ w d. ground (arith, h.others w d, beq_ne u w d);
  }

  then-Handled : (m n : ℕ) (s t r : Server) → Handled u m s t → Handled u n t r → Handled u n s r
  then-Handled m n s t r f g = record {
    inv = g.inv;
    here = λ w. ground (arith, f.here w, g.here w);
    others = λ w d. g.others w d ∙ f.others w d;
  }

  reconnect-Handled :
      (s : Server) → Inv s → places u s ≡ 0 → Handled u 1 s (reconnect_user now pid u s)
  unfolding reconnect_user
  reconnect-Handled s v h = ready-Handled 1 s (handle_user_created now pid u left) (
      set-Handled 1 x s (handle_user_created now pid u left) (
        then-Handled 0 1 counted left (handle_user_created now pid u left) gone
          (created-Handled left gone.inv (ground (arith, gone.here u, beq_self u)))))
    where
      x : User
      x = record (s.user u) { reconnect_counter = (s.user u).reconnect_counter + 1 }

      counted : Server
      counted = set_user u x s

      left : Server
      left = handle_user_destroyed u counted

      gone : Handled u 0 counted left
      gone = destroyed-Handled counted (set_user-Inv u x s v h)

  abbrev let_go : Server → Server
  let_go s = set_user u (record (s.user u) { backend = none }) s

  stay-Handled : (s : Server) → Inv s → places u s ≡ 0 → Handled u 0 s s
  stay-Handled s v h = record {
    inv = v;
    here = λ w. elim (beq_cases u w) [ inl e ↦ ground (arith, e, h) | inr e ↦ ground (arith, e) ];
    others = λ w d. refl;
  }

  disconnected-Handled :
      (s : Server)
      → Inv s
      → places u s ≡ 0
      → Handled u
          (if survives (s.user u) then 1 else 0)
          s
          (handle_disconnected other_error now pid u s)
  unfolding handle_disconnected survives reconnects
  disconnected-Handled s v h = elim (Bool-cases (s.user u).ignore_disconnect) [
    | inl e ↦ rw e (stay-Handled s v h)
    | inr e ↦ rw e (elim (Bool-cases (reconnects (s.user u) other_error)) [
      | inl f ↦ rw f (reconnect-Handled s v h)
      | inr f ↦ rw f (destroyed-Handled s v)
    ])
  ]

  survives-let_go : (s : Server) → survives ((let_go s).user u) ≡ survives (s.user u)
  unfolding survives reconnects
  survives-let_go s = ground arith

  dropped-Handled :
      (s : Server)
      → Inv s
      → places u s ≡ 0
      → Handled u
          (if survives (s.user u) then 1 else 0)
          s
          (handle_disconnected other_error now pid u (let_go s))
  dropped-Handled s v h =
      set-Handled (if survives (s.user u) then 1 else 0) (record (s.user u) { backend = none }) s
        (handle_disconnected other_error now pid u (let_go s))
        (subst
          (λ b.
            Handled u (if b then 1 else 0) (let_go s)
              (handle_disconnected other_error now pid u (let_go s)))
          (survives-let_go s)
          (disconnected-Handled (let_go s)
            (set_user-Inv u (record (s.user u) { backend = none }) s v h) h'))
    where
      h' : places u (let_go s) ≡ 0
      h' = places-set_user u (record (s.user u) { backend = none }) s u ∙ h

-- Each of the users stands in one place if he survives, else in none; all others stay.
abbrev pub settled : List ℕ → Server → ℕ → ℕ
settled us s w = if contains w us then (if survives (s.user w) then 1 else 0) else places w s

pub record Dropped (us : List ℕ) (s t : Server) : Type 0 where
  pub inv : Inv t
  pub here : (w : ℕ) → places w t ≡ settled us s w

Dropped-cons :
    (u : ℕ) (us : List ℕ) (s t r : Server)
    → count u us ≡ 0
    → Handled u (if survives (s.user u) then 1 else 0) s t
    → Dropped us t r
    → Dropped (u ∷ us) s r
Dropped-cons u us s t r new f g = record {
  inv = g.inv;
  here = λ w. elim (beq_cases u w) [
    | inl e ↦ ground (arith, e, g.here w, f.here w, contains-count w us, new, beq_self w)
    | inr e ↦ ground (arith, e, g.here w, f.here w, f.others w (ne_of_beq u w e))
  ];
}

pub Dropped-users :
    (now pid : ℕ) (us : List ℕ) (s : Server)
    → Inv s
    → ((w : ℕ) → count w us ≤ 1)
    → ((w : ℕ) → 1 ≤ count w us → places w s ≡ 0)
    → Dropped us s (drop_users now pid us s)
unfolding drop_users
Dropped-users now pid [] s v one zeros = record { inv = v; here = λ w. refl }
Dropped-users now pid (u ∷ us) s v one zeros =
    Dropped-cons u us s t (drop_users now pid us t) (ground (arith, one u)) step (
      Dropped-users now pid us t step.inv (λ w. ground (arith, one w))
        (λ w p. ground (arith, one u, one w, zeros w, step.here w)))
  where
    t : Server
    t =
        handle_disconnected other_error now pid u
          (set_user u (record (s.user u) { backend = none }) s)

    step : Handled u (if survives (s.user u) then 1 else 0) s t
    step = dropped-Handled now pid u s v (zeros u (ground arith))

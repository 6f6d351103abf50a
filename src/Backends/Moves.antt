-- ===== src/Backends/Moves.antt =====
-- How the pieces of the server's handlers move one user.
use spectrum.Prelude.{
  ℕ, ◌+◌, ◌≤◌, ◌<◌, ◌≡◌, List, [], ◌∷◌, ◌++◌, arith, nat_eq, ◌==◌, if◌then◌else◌, length,
  length-append,
}
use spectrum.Prelude.Members.{count, count-append, count-remove, length-remove-le}
use spectrum.Backends.Defs.{Server}
use spectrum.Backends.Places.{places, total-update, total-update_none, Inv, count-le-total}
use spectrum.Backends.{attach, detach}

pub places-attach :
    (u v a : ℕ) (s : Server)
    → count a s.clients ≡ 1
    → places v (attach u a s) ≡ places v s + (if u == v then 1 else 0)
unfolding attach places
places-attach u v a s h = ground (
  arith,
  total-update v a (record (s.backend a) { users = (s.backend a).users ++ u ∷ [] }) s.backend
      s.clients h,
  count-append v (s.backend a).users (u ∷ []),
)

pub places-detach :
    (u v a : ℕ) (s : Server)
    → count a s.clients ≡ 1
    → places v (detach u a s) + (if u == v then count u (s.backend a).users else 0) ≡ places v s
unfolding detach places
places-detach u v a s h = ground (
  arith,
  total-update v a ((detach u a s).backend a) s.backend s.clients h,
  count-remove u v (s.backend a).users,
)

pub count-le-places :
    (u a : ℕ) (s : Server) → 1 ≤ count a s.clients → count u (s.backend a).users ≤ places u s
unfolding places
count-le-places u a s p = omega (arith, count-le-total u a s.backend s.clients p)

-- Writing to a backend that is not listed moves nobody.
pub places-detach_unlisted :
    (u v a : ℕ) (s : Server) → count a s.clients ≡ 0 → places v (detach u a s) ≡ places v s
unfolding detach places
places-detach_unlisted u v a s h =
    ground (arith, total-update_none v a ((detach u a s).backend a) s.backend s.clients h)

module _ (u a : ℕ) (s : Server) (v : Inv s) (one : 1 ≤ count a s.clients) where
  pub attach-Inv :
      places u s ≡ 0 → length (s.backend a).users < s.users_per_backend → Inv (attach u a s)
  unfolding attach
  attach-Inv new room = record {
    distinct = v.distinct;
    once = λ w. ground (arith, v.once w, v.distinct a, places-attach u w a s);
    assigned = λ b w p q. ground (
      arith,
      v.assigned b w p,
      count-append w (s.backend a).users (u ∷ []),
      count-le-places w b s p,
    );
    sizes = λ b p. ground (arith, v.sizes b p, length-append (s.backend a).users (u ∷ []));
  }

  pub detach-Inv : Inv (detach u a s)
  unfolding detach
  detach-Inv = record {
    distinct = v.distinct;
    once = λ w. ground (arith, v.once w, v.distinct a, places-detach u w a s);
    assigned = λ b w p q. ground (arith, v.assigned b w p, count-remove u w (s.backend a).users);
    sizes = λ b p. ground (arith, v.sizes b p, length-remove-le u (s.backend a).users);
  }

pub detach_unlisted-Inv :
    (u a : ℕ) (s : Server) → Inv s → count a s.clients ≡ 0 → Inv (detach u a s)
unfolding detach
detach_unlisted-Inv u a s v none_listed = record {
  distinct = v.distinct;
  once = λ w. omega (arith, v.once w, places-detach_unlisted u w a s none_listed);
  assigned = λ b w p q. ground (arith, v.assigned b w p);
  sizes = λ b p. ground (arith, v.sizes b p);
}

-- On a backend that has been detached nobody of that name is left.
pub count-detach : (u a : ℕ) (s : Server) → count u ((detach u a s).backend a).users ≡ 0
unfolding detach
count-detach u a s = ground (arith, count-remove u u (s.backend a).users)

module _ (l : List ℕ) (s : Server) where
  abbrev pub set_waiting : Server
  set_waiting = record s { waiting_users = l }

  pub places-set_waiting :
      (w : ℕ) → places w set_waiting + count w s.waiting_users ≡ places w s + count w l
  unfolding places
  places-set_waiting w = omega arith

  pub set_waiting-Inv : Inv s → ((w : ℕ) → places w set_waiting ≤ 1) → Inv set_waiting
  set_waiting-Inv v once = record {
    distinct = v.distinct;
    once = once;
    assigned = v.assigned;
    sizes = v.sizes;
  }

pub places-enqueue :
    (u w : ℕ) (s : Server)
    → places w (set_waiting (s.waiting_users ++ u ∷ []) s) ≡ places w s + (if u == w then 1 else 0)
places-enqueue u w s = ground (
  arith,
  places-set_waiting (s.waiting_users ++ u ∷ []) s w,
  count-append w s.waiting_users (u ∷ []),
)

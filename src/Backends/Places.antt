-- ===== src/Backends/Places.antt =====
-- Where a user stands: how often in the queue and among the users of the backends.
use spectrum.Prelude.{ℕ, ◌+◌, ◌≤◌, ◌≡◌, refl, ◌∙◌, Bool, List, [], ◌∷◌, some, arith, nat_eq, length}
use spectrum.Prelude.Members.{remove, count}
use spectrum.Backends.Defs.{Server, Backend, Order, update, send_to, listen}

unfoldable pub total : ℕ → List ℕ → (ℕ → Backend) → ℕ
total u [] be = 0
total u (a ∷ rest) be = count u (be a).users + total u rest be

-- A user who is placed once is either in the queue or on one backend.
unfoldable pub places : ℕ → Server → ℕ
places u s = count u s.waiting_users + total u s.clients s.backend

module _ (u a : ℕ) (b : Backend) (be : ℕ → Backend) where
  pub total-update_none :
      (xs : List ℕ) → count a xs ≡ 0 → total u xs (update be a b) ≡ total u xs be
  unfolding total
  total-update_none [] h = refl
  total-update_none (x ∷ xs) h = ground (arith, total-update_none xs)

  pub total-update :
      (xs : List ℕ)
      → count a xs ≡ 1
      → total u xs (update be a b) + count u (be a).users ≡ total u xs be + count u b.users
  unfolding total
  total-update [] h = omega arith
  total-update (x ∷ xs) h = ground (arith, total-update xs, total-update_none xs)

total-remove_none :
    (u a : ℕ) (be : ℕ → Backend) (xs : List ℕ)
    → count a xs ≡ 0
    → total u (remove a xs) be ≡ total u xs be
unfolding total
total-remove_none u a be [] h = refl
total-remove_none u a be (x ∷ xs) h = ground (arith, total-remove_none u a be xs)

pub total-remove :
    (u a : ℕ) (be : ℕ → Backend) (xs : List ℕ)
    → count a xs ≡ 1
    → total u (remove a xs) be + count u (be a).users ≡ total u xs be
unfolding total
total-remove u a be [] h = omega arith
total-remove u a be (x ∷ xs) h = ground (arith, total-remove u a be xs, total-remove_none u a be xs)

pub count-le-total :
    (u a : ℕ) (be : ℕ → Backend) (xs : List ℕ)
    → 1 ≤ count a xs
    → count u (be a).users ≤ total u xs be
unfolding total
count-le-total u a be [] h = elim h [ ]
count-le-total u a be (x ∷ xs) h = ground (arith, count-le-total u a be xs)

-- Somebody who is on none of the listed backends is not counted.
pub total_zero :
    (u : ℕ) (be : ℕ → Backend) (xs : List ℕ)
    → ((a : ℕ) → 1 ≤ count a xs → count u (be a).users ≡ 0)
    → total u xs be ≡ 0
unfolding total
total_zero u be [] h = refl
total_zero u be (x ∷ xs) h =
    omega (arith, h x (ground arith), total_zero u be xs (λ a p. h a (ground arith)))

pub total-same :
    (u : ℕ) (be ce : ℕ → Backend) (xs : List ℕ)
    → ((a : ℕ) → (ce a).users ≡ (be a).users)
    → total u xs ce ≡ total u xs be
unfolding total
total-same u be ce [] h = refl
total-same u be ce (x ∷ xs) h = ground (arith, h x, total-same u be ce xs h)

pub places_zero :
    (u : ℕ) (s : Server)
    → count u s.waiting_users ≡ 0
    → ((a : ℕ) → 1 ≤ count a s.clients → count u (s.backend a).users ≡ 0)
    → places u s ≡ 0
unfolding places
places_zero u s w h = omega (arith, total_zero u s.backend s.clients h)

-- A change that moves no user.
pub record Frame (s t : Server) : Type 0 where
  pub clients : t.clients ≡ s.clients
  pub waiting : t.waiting_users ≡ s.waiting_users
  pub backend_of : (u : ℕ) → (t.user u).backend ≡ (s.user u).backend
  pub users : (a : ℕ) → (t.backend a).users ≡ (s.backend a).users
  pub limit : t.users_per_backend ≡ s.users_per_backend

pub Frame-refl : (s : Server) → Frame s s
Frame-refl s = record {
  clients = refl;
  waiting = refl;
  backend_of = λ u. refl;
  users = λ a. refl;
  limit = refl;
}

pub Frame-trans : {s t r : Server} → Frame s t → Frame t r → Frame s r
Frame-trans f g = record {
  clients = g.clients ∙ f.clients;
  waiting = g.waiting ∙ f.waiting;
  backend_of = λ u. g.backend_of u ∙ f.backend_of u;
  users = λ a. g.users a ∙ f.users a;
  limit = g.limit ∙ f.limit;
}

pub places-Frame : {s t : Server} → Frame s t → (u : ℕ) → places u t ≡ places u s
unfolding places
places-Frame {s = s} {t = t} f u =
    ground (arith, f.waiting, f.clients, total-same u s.backend t.backend s.clients f.users)

-- No backend is listed twice, nobody is placed twice, the users of a backend point back to it, and
-- no backend has more users than the limit.
pub record Inv (s : Server) : Type 0 where
  pub distinct : (a : ℕ) → count a s.clients ≤ 1
  pub once : (u : ℕ) → places u s ≤ 1
  pub assigned :
      (a u : ℕ)
      → 1 ≤ count a s.clients
      → 1 ≤ count u (s.backend a).users
      → (s.user u).backend ≡ some a
  pub sizes : (a : ℕ) → 1 ≤ count a s.clients → length (s.backend a).users ≤ s.users_per_backend

pub Inv-Frame : {s t : Server} → Frame s t → Inv s → Inv t
Inv-Frame {s = s} {t = t} f v = record {
  distinct = λ a. ground (arith, v.distinct a, f.clients);
  once = λ u. ground (arith, v.once u, places-Frame f u);
  assigned = λ a u p q. ground (arith, v.assigned a u, f.clients, f.users a, f.backend_of u);
  sizes = λ a p. ground (arith, v.sizes a, f.clients, f.users a, f.limit);
}

pub send_to-Frame : (a : ℕ) (o : Order) (s : Server) → Frame s (send_to a o s)
send_to-Frame a o s = record {
  clients = refl;
  waiting = refl;
  backend_of = λ u. refl;
  users = λ b. refl;
  limit = refl;
}

pub listen-Frame : (on : Bool) (u : ℕ) (s : Server) → Frame s (listen on u s)
listen-Frame on u s = record {
  clients = refl;
  waiting = refl;
  backend_of = λ w. ground arith;
  users = λ b. refl;
  limit = refl;
}

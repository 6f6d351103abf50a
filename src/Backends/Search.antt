-- ===== src/Backends/Search.antt =====
-- `getFreeClient` moves no user, and the backend that it finds has room.
use spectrum.Prelude.{ℕ, ◌≤◌, ◌<◌, ◌≡◌, Bool, true, List, [], ◌∷◌, some, arith, nat_eq, length}
use spectrum.Prelude.Members.{count}
use spectrum.Backends.Defs.{Server}
use spectrum.Backends.Places.{Frame}
use spectrum.Backends.{suits, find_client, close_if_full, spawn, get_free_client}

find_client-some :
    (p : ℕ → Bool) (xs : List ℕ) (a : ℕ)
    → find_client p xs ≡ some a
    → (1 ≤ count a xs) × (p a ≡ true)
unfolding find_client
find_client-some p [] a e = cc
find_client-some p (x ∷ xs) a e = ground (arith, find_client-some p xs a)

pub get_free_client-Frame :
    (accept long check : Bool) (now pid : ℕ) (s : Server)
    → Frame s (get_free_client accept long check now pid s).0
unfolding get_free_client close_if_full spawn
get_free_client-Frame accept long check now pid s = record {
  clients = ground arith;
  waiting = ground arith;
  backend_of = λ u. ground arith;
  users = λ a. ground arith;
  limit = ground arith;
}

-- The client that is found is one of the server's, and has room for one more user.
pub get_free_client-some :
    (accept long check : Bool) (now pid : ℕ) (s : Server) (a : ℕ)
    → (get_free_client accept long check now pid s).1 ≡ some a
    → (1 ≤ count a s.clients) × (length (s.backend a).users < s.users_per_backend)
unfolding get_free_client suits
get_free_client-some accept long check now pid s a e = ground (
  arith,
  find_client-some (suits s accept long) s.clients a,
  find_client-some (suits (record s { last_login = now }) accept long) s.clients a,
)

-- ===== src/Backends/Pings/Idle.antt =====
-- Moving an idle user to a long-running backend.
use spectrum.Prelude.{
  ℕ, ◌+◌, ◌≤◌, ◌<◌, ◌≡◌, refl, ◌∙◌, inl, inr, true, false, Option, none, some, arith, nat_eq, ◌==◌,
  if◌then◌else◌, length, Bool-cases, Option-cases,
}
use spectrum.Prelude.Members.{count, length-remove-le}
use spectrum.Backends.Defs.{Server}
use spectrum.Backends.Places.{places, Frame, places-Frame, Inv, Inv-Frame}
use spectrum.Backends.{get_free_client, attach, handle_user_ready_to_connect, detach}
use spectrum.Backends.Search.{get_free_client-Frame, get_free_client-some}
use spectrum.Backends.Moves.{places-attach, places-detach, attach-Inv, detach-Inv, count-le-places}
use spectrum.Backends.Pings.{leave, ignore, move_to, move_to_long_run_backend}

-- Up to the end of the old backend, leaving is what `detach` does.
leave-Frame : (u a : ℕ) (s : Server) → Frame (detach u a s) (leave u a (ignore u s))
unfolding leave ignore detach
leave-Frame u a s = record {
  clients = refl;
  waiting = refl;
  backend_of = λ w. ground arith;
  users = λ b. ground arith;
  limit = refl;
}

ready-Frame : (u : ℕ) (s : Server) → Frame s (handle_user_ready_to_connect u s)
unfolding handle_user_ready_to_connect
ready-Frame u s = record {
  clients = ground arith;
  waiting = ground arith;
  backend_of = λ w. ground arith;
  users = λ b. ground arith;
  limit = ground arith;
}

-- The user is on the backend that he points to.
unfoldable pub Hosted : ℕ → Server → Type 0
Hosted u s =
    (a : ℕ)
    → (s.user u).backend ≡ some a
    → (1 ≤ count a s.clients) × (1 ≤ count u (s.backend a).users)

module _ (u old b : ℕ) (s : Server) (v : Inv s) (here : 1 ≤ count u (s.backend old).users)
    (listed : 1 ≤ count old s.clients) (free : 1 ≤ count b s.clients)
    (room : length (s.backend b).users < s.users_per_backend) where
  abbrev gone : Server
  gone = leave u old (ignore u s)

  gone-Inv : Inv gone
  gone-Inv = Inv-Frame (leave-Frame u old s) (detach-Inv u old s v listed)

  old_once : count old s.clients ≡ 1
  old_once = omega (arith, v.distinct old)

  b_once : count b s.clients ≡ 1
  b_once = omega (arith, v.distinct b)

  places-gone : (w : ℕ) → places w gone + (if u == w then 1 else 0) ≡ places w s
  places-gone w = ground (
    arith,
    places-Frame (leave-Frame u old s) w,
    places-detach u w old s old_once,
    count-le-places u old s listed,
    v.once u,
    v.once w,
  )

  moved-Inv : Inv (move_to u old (some b) s).0
  unfolding move_to leave ignore
  moved-Inv = Inv-Frame (ready-Frame u (attach u b gone)) (
      attach-Inv u b gone gone-Inv free (ground (arith, places-gone u, v.once u))
        (ground (arith, length-remove-le u (s.backend old).users)))

  places-moved : (w : ℕ) → places w (move_to u old (some b) s).0 ≡ places w s
  unfolding move_to leave ignore
  places-moved w = ground (
    arith,
    places-Frame (ready-Frame u (attach u b gone)) w,
    places-attach u w b gone b_once,
    places-gone w,
  )

module _ (now pid u : ℕ) (s : Server) (v : Inv s) (hosted : Hosted u s) where
  abbrev found : Server × Option ℕ
  found = get_free_client false true false now pid s

  found-Frame : Frame s found.0
  found-Frame = get_free_client-Frame false true false now pid s

  Kept : Server → Type 0
  Kept t = Inv t × ((w : ℕ) → places w t ≡ places w s)

  stays_none : (s.user u).backend ≡ none → move_to_long_run_backend now pid u s ≡ (s, true)
  unfolding move_to_long_run_backend
  stays_none e = ground arith

  module _ (old : ℕ) (e : (s.user u).backend ≡ some old) where
    stays_long : (s.backend old).long_run ≡ true → move_to_long_run_backend now pid u s ≡ (s, true)
    unfolding move_to_long_run_backend
    stays_long l = ground (arith, e)

    tries :
        (s.backend old).long_run ≡ false
        → move_to_long_run_backend now pid u s ≡ move_to u old found.1 found.0
    unfolding move_to_long_run_backend
    tries l = ground (arith, e)

    tried : (c : Option ℕ) → found.1 ≡ c → Kept (move_to u old c found.0).0
    unfolding move_to Kept Hosted
    tried none f = (Inv-Frame found-Frame v, places-Frame found-Frame)
    tried (some b) f = (
      moved-Inv u old b found.0 w here listed free room,
      λ x. places-moved u old b found.0 w here listed free room x ∙ places-Frame found-Frame x,
    )
      where
        w : Inv found.0
        w = Inv-Frame found-Frame v

        here : 1 ≤ count u (found.0.backend old).users
        here = rw (found-Frame.users old) (hosted old e).1

        listed : 1 ≤ count old found.0.clients
        listed = rw found-Frame.clients (hosted old e).0

        free : 1 ≤ count b found.0.clients
        free = rw found-Frame.clients (get_free_client-some false true false now pid s b f).0

        room : length (found.0.backend b).users < found.0.users_per_backend
        room =
            rw (found-Frame.users b, found-Frame.limit)
              (get_free_client-some false true false now pid s b f).1

  -- For a user who is on the backend that he points to, if he has one, `moveToLongRunBackend` keeps
  -- the invariant and leaves everybody in as many places as before: nobody is lost on the way from
  -- one backend to the other.
  pub move_to_long_run_backend-places :
      Inv (move_to_long_run_backend now pid u s).0
      × ((w : ℕ) → places w (move_to_long_run_backend now pid u s).0 ≡ places w s)
  unfolding Kept
  move_to_long_run_backend-places = elim (Option-cases (s.user u).backend) [
    | inl e ↦ rw (stays_none e) (v, λ w. refl)
    | inr (old, e) ↦ elim (Bool-cases (s.backend old).long_run) [
      | inl l ↦ rw (stays_long old e l) (v, λ w. refl)
      | inr l ↦ rw (tries old e l) (tried old e found.1 refl)
    ]
  ]

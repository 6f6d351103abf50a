-- ===== src/Requests.antt =====
-- HTTPRequestQueue (libtransport/HTTPRequestQueue.cpp): one user's HTTP requests, one after the
-- other. `in_flight` are the requests whose `execute` was called and that have not finished; it and
-- `started` are kept to state what the queue does. Requests are addresses.
mod Laws
mod Tests
use spectrum.Prelude.{
  ℕ, zero, suc, Bool, true, false, List, [], ◌∷◌, ◌++◌, Option, none, some, nat_eq, ◌==◌,
}
use spectrum.Prelude.Members.{remove, contains}
use spectrum.Prelude.{◌≡◌}

pub record HttpRequestQueue : Type 0 where
  pub queue : List ℕ
  pub req : Option ℕ
  pub timer_runs : Bool
  pub in_flight : List ℕ
  pub started : List ℕ

pub init : HttpRequestQueue
init = record { queue = []; req = none; timer_runs = false; in_flight = []; started = [] }

pub handle_request_finished : HttpRequestQueue → HttpRequestQueue
handle_request_finished q = record q { req = none; timer_runs = true }

pub send_next_request : HttpRequestQueue → HttpRequestQueue
send_next_request q = elim q.queue [
  | [] ↦ record q { req = none; timer_runs = false }
  | r ∷ rest ↦ elim q.req [
    | some other ↦ q
    | none ↦ record q {
      queue = rest;
      req = some r;
      in_flight = q.in_flight ++ r ∷ [];
      started = q.started ++ r ∷ [];
    }
  ]
]

pub queue_request : ℕ → HttpRequestQueue → HttpRequestQueue
queue_request r q =
    let q' = record q { queue = q.queue ++ r ∷ [] } in
    elim q'.req [ none ↦ send_next_request q' | some other ↦ q' ]

-- What happens to a queue: a new request, the timer's tick, and the end of a request.
pub data Step : HttpRequestQueue → HttpRequestQueue → List ℕ → Type 0 where
  queued : {q : HttpRequestQueue} (r : ℕ) → Step q (queue_request r q) (r ∷ [])
  ticked : {q : HttpRequestQueue} → q.timer_runs ≡ true → Step q (send_next_request q) []
  finished :
      {q : HttpRequestQueue} (r : ℕ)
      → contains r q.in_flight ≡ true
      → Step q (handle_request_finished (record q { in_flight = remove r q.in_flight })) []

-- The queues that are reached from a new one, with the requests handed in, oldest first.
pub data Reach : HttpRequestQueue → List ℕ → Type 0 where
  start : Reach init []
  next :
      {q t : HttpRequestQueue} {rs more : List ℕ}
      → Reach q rs
      → Step q t more
      → Reach t (rs ++ more)

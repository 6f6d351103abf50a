-- ===== src/Requests/Laws.antt =====
-- Order, progress and overlap of the requests in an HTTPRequestQueue.
use spectrum.Prelude.{
  ℕ, ◌≡◌, refl, sym, ap, ◌∙◌, ◌⊎◌, inl, inr, true, List, [], ◌∷◌, ◌++◌, none, arith, append-nil,
  append_assoc, Option-cases, List-cases, nat_eq, ◌≢◌,
}
use spectrum.Requests.{
  HttpRequestQueue, init, handle_request_finished, send_next_request, queue_request, Step, Reach,
  queued, ticked, finished, start, next,
}

abbrev requests : HttpRequestQueue → List ℕ
requests q = q.started ++ q.queue

requests-send : (q : HttpRequestQueue) → requests (send_next_request q) ≡ requests q
unfolding send_next_request
requests-send q = elim (List-cases q.queue) [
  | inl e ↦ ground (arith, e)
  | inr (r, rest, e) ↦ elim (Option-cases q.req) [
    | inl n ↦ ground (arith, e, n, append_assoc q.started (r ∷ []) rest)
    | inr (o, n) ↦ ground (arith, e, n)
  ]
]

requests-queue :
    (r : ℕ) (q : HttpRequestQueue) → requests (queue_request r q) ≡ requests q ++ r ∷ []
unfolding queue_request
requests-queue r q = elim (Option-cases q.req) [
  | inl n ↦ ground (
    arith,
    n,
    requests-send (record q { queue = q.queue ++ r ∷ [] }),
    append_assoc q.started q.queue (r ∷ []),
  )
  | inr (o, n) ↦ ground (arith, n, append_assoc q.started q.queue (r ∷ []))
]

requests-step :
    {q t : HttpRequestQueue} {more : List ℕ} → Step q t more → requests t ≡ requests q ++ more
unfolding handle_request_finished
requests-step {q = q} (queued r) = requests-queue r q
requests-step {q = q} (ticked h) = requests-send q ∙ sym (append-nil (requests q))
requests-step {q = q} (finished r h) = sym (append-nil (requests q))

-- In every queue reached from a new one, the requests that were started, in the order in which they
-- were, and then the requests that wait, are the requests handed in, oldest first.
pub Reach-requests : {q : HttpRequestQueue} {rs : List ℕ} → Reach q rs → q.started ++ q.queue ≡ rs
unfolding init
Reach-requests start = refl
Reach-requests (next {more = more} r s) =
    requests-step s ∙ ap (λ (l : List ℕ). l ++ more) (Reach-requests r)

-- Something will take the next request.
unfoldable pub Wakes : HttpRequestQueue → Type 0
Wakes q = (q.queue ≡ []) ⊎ (q.timer_runs ≡ true) ⊎ (q.req ≢ none)

Wakes-send : (q : HttpRequestQueue) → Wakes (send_next_request q)
unfolding Wakes send_next_request
Wakes-send q = elim (List-cases q.queue) [
  | inl e ↦ ground (arith, e)
  | inr (r, rest, e) ↦ elim (Option-cases q.req) [
    | inl n ↦ ground (arith, e, n)
    | inr (o, n) ↦ ground (arith, e, n)
  ]
]

Wakes-step : {q t : HttpRequestQueue} {more : List ℕ} → Step q t more → Wakes q → Wakes t
unfolding Wakes handle_request_finished queue_request
Wakes-step {q = q} (queued r) h = elim (Option-cases q.req) [
  | inl n ↦ ground (arith, n, Wakes-send (record q { queue = q.queue ++ r ∷ [] }))
  | inr (o, n) ↦ ground (arith, n)
]
Wakes-step {q = q} (ticked e) h = Wakes-send q
Wakes-step (finished r e) h = ground arith

pub Reach-Wakes : {q : HttpRequestQueue} {rs : List ℕ} → Reach q rs → Wakes q
unfolding init Wakes
Reach-Wakes start = inl refl
Reach-Wakes (next r s) = Wakes-step s (Reach-Wakes r)

-- A tick while nothing waits forgets the request that is running: the next one that is handed in
-- starts at once, beside all that are in flight.
pub overlap :
    (r : ℕ) (q : HttpRequestQueue)
    → q.queue ≡ []
    → (queue_request r (send_next_request q)).in_flight ≡ q.in_flight ++ r ∷ []
unfolding send_next_request queue_request
overlap r q e = ground (arith, e)

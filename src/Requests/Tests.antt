-- ===== src/Requests/Tests.antt =====
-- Two requests, of which the second is handed in while the timer of the first still runs.
use spectrum.Prelude.{◌≡◌, refl, [], ◌∷◌, ◌++◌, nat_eq}
use spectrum.Requests.{
  HttpRequestQueue, init, handle_request_finished, send_next_request, queue_request, Reach, queued,
  finished, start, next,
}
use spectrum.Requests.Laws.{Reach-Wakes, Wakes}

abbrev one_done : HttpRequestQueue
one_done = handle_request_finished (record (queue_request 1 init) { in_flight = [] })

abbrev second_runs : HttpRequestQueue
second_runs = queue_request 2 one_done

history : Reach second_runs (([] ++ 1 ∷ []) ++ [] ++ 2 ∷ [])
unfolding queue_request send_next_request init
history = next (next (next start (queued 1)) (finished 1 refl)) (queued 2)

Reach-Wakes_example : Wakes second_runs
Reach-Wakes_example = Reach-Wakes history

two_at_once : (queue_request 3 (send_next_request second_runs)).in_flight ≡ 2 ∷ 3 ∷ []
unfolding queue_request send_next_request init handle_request_finished
two_at_once = refl

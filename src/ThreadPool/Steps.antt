-- ===== src/ThreadPool/Steps.antt =====
-- The two ways in which the pool's functions go: with every slot taken, and with a slot at the front
-- of the free list.
use spectrum.Prelude.{◌≡◌, ℕ, List, [], ◌∷◌, ◌++◌, arith}
use spectrum.ThreadPool.{ThreadPool, get_free_thread, start_worker, schedule_loop, run_as_thread}

module _ (t : ℕ) (p : ThreadPool) where
  pub schedule_loop-full :
      (queue : List ℕ)
      → p.free_threads ≡ []
      → schedule_loop (t ∷ queue) p ≡ record p { request_queue = t ∷ queue }
  unfolding schedule_loop get_free_thread
  schedule_loop-full queue e = ground arith

  pub run_as_thread-full :
      p.free_threads ≡ []
      → run_as_thread t p ≡ record p { request_queue = p.request_queue ++ t ∷ [] }
  unfolding run_as_thread get_free_thread
  run_as_thread-full e = ground arith

  module _ (w : ℕ) (rest : List ℕ) (e : p.free_threads ≡ w ∷ rest) where
    pub schedule_loop-free :
        (queue : List ℕ)
        → schedule_loop (t ∷ queue) p ≡ schedule_loop queue (start_worker w t (get_free_thread p).0)
    unfolding schedule_loop get_free_thread
    schedule_loop-free queue = ground arith

    pub run_as_thread-free : run_as_thread t p ≡ start_worker w t (get_free_thread p).0
    unfolding run_as_thread get_free_thread
    run_as_thread-free = ground arith

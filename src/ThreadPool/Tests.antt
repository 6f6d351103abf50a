-- ===== src/ThreadPool/Tests.antt =====
-- A pool of one thread with two jobs, and the theorems at that history.
use spectrum.Prelude.{◌+◌, ◌≡◌, refl, [], ◌∷◌, ◌++◌, some, nat_eq, length}
use spectrum.Prelude.Maps.{lookup, insert, erase}
use spectrum.Prelude.Int.{pos, ◌+ℤ◌, negsuc}
use spectrum.ThreadPool.{
  ThreadPool, Reach, start, next, submit, finish, init, run_as_thread, clean_up, get_free_thread,
  start_worker, schedule_from_queue, schedule_loop, release_thread, submit_all, push_slots,
}
use spectrum.ThreadPool.Slots.{Inv, KeepsBusy, Reach-Inv}
use spectrum.ThreadPool.Order.{Reach-fifo}
use spectrum.ThreadPool.Counter.{Reach-active_threads}

abbrev two_jobs : ThreadPool
two_jobs = run_as_thread 11 (run_as_thread 10 (init 1))

abbrev one_done : ThreadPool
one_done = clean_up (12 ∷ []) 0 two_jobs

job_10_runs : lookup 0 two_jobs.worker ≡ some 10
unfolding run_as_thread get_free_thread start_worker init push_slots lookup insert
job_10_runs = refl

history : Reach 1 one_done (((10 ∷ []) ++ 11 ∷ []) ++ 12 ∷ [])
history = next (next (next start (submit 10)) (submit 11)) (finish 0 10 (12 ∷ []) job_10_runs)

job_11_runs : one_done.worker ≡ (0, 11) ∷ []
unfolding clean_up schedule_from_queue schedule_loop release_thread submit_all run_as_thread
    get_free_thread start_worker init push_slots insert erase
job_11_runs = refl

counter_below_zero : one_done.active_threads ≡ negsuc 2
unfolding clean_up schedule_from_queue schedule_loop release_thread submit_all run_as_thread
    get_free_thread start_worker init push_slots ◌+ℤ◌
counter_below_zero = refl

Reach-Inv_example : Inv 1 one_done × KeepsBusy one_done
Reach-Inv_example = Reach-Inv history

Reach-fifo_example : one_done.created ++ one_done.request_queue ≡ 10 ∷ 11 ∷ 12 ∷ []
Reach-fifo_example = Reach-fifo history

Reach-active_threads_example :
    one_done.active_threads +ℤ pos (length one_done.worker + length one_done.created) ≡ pos 0
Reach-active_threads_example = Reach-active_threads history

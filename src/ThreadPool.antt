-- ===== src/ThreadPool.antt =====
-- libtransport/ThreadPool.cpp: a fixed set of worker slots, a queue of jobs that wait for one, and a
-- counter. `pool_lock` and `criticalregion` make `get_free_thread`, `release_thread` and the
-- scheduling loop atomic; all but `Thread::run` happens on the event loop's thread.
pub mod Steps
pub mod Slots
pub mod Order
pub mod Counter
mod Tests
use spectrum.Prelude.{
  ℕ, zero, suc, ◌≡◌, List, [], ◌∷◌, ◌++◌, Option, none, some, ◌+◌, ltb, if◌then◌else◌, nat_eq,
}
use spectrum.Prelude.Maps.{Map, insert, erase, lookup}
use spectrum.Prelude.Int.{ℤ, pos, negsuc, ◌+ℤ◌}

-- A `Thread *` is its address. `worker[i] == NULL` is a missing entry of `worker`.
pub record ThreadPool : Type 0 where
  pub max_threads : ℕ
  pub active_threads : ℤ
  pub free_threads : List ℕ
  pub request_queue : List ℕ
  pub worker : Map ℕ ℕ
  -- The jobs whose boost::thread has been created, oldest first.
  pub created : List ℕ

-- The constructor's loop pushes 0, 1, ..., n - 1.
pub push_slots : ℕ → ℕ → List ℕ
push_slots i zero = []
push_slots i (suc left) = i ∷ push_slots (i + 1) left

pub init : ℕ → ThreadPool
init n = record {
  max_threads = n;
  active_threads = pos 0;
  free_threads = push_slots 0 n;
  request_queue = [];
  worker = [];
  created = [];
}

pub update_active_thread_count : ℤ → ThreadPool → ThreadPool
update_active_thread_count k p = record p { active_threads = p.active_threads +ℤ k }

take_free : List ℕ → ThreadPool → ThreadPool × Option ℕ
take_free [] p = (p, none)
take_free (w ∷ rest) p =
    (update_active_thread_count (negsuc 0) (record p { free_threads = rest }), some w)

-- `none` is the source's -1.
pub get_free_thread : ThreadPool → ThreadPool × Option ℕ
unfolding take_free update_active_thread_count
get_free_thread p = take_free p.free_threads p

pub release_thread : ℕ → ThreadPool → ThreadPool
unfolding update_active_thread_count
release_thread i p =
    if ltb p.max_threads i
    then p
    else update_active_thread_count (pos 1)
        (record p { worker = erase i p.worker; free_threads = p.free_threads ++ i ∷ [] })

-- The creation of a boost::thread for a job on a free slot, with the count that follows it.
pub start_worker : ℕ → ℕ → ThreadPool → ThreadPool
unfolding update_active_thread_count
start_worker w t p =
    update_active_thread_count (negsuc 0)
      (record p { worker = insert w t p.worker; created = p.created ++ t ∷ [] })

-- The `while` of `scheduleFromQueue`; its first argument is the queue that is left.
pub schedule_loop : List ℕ → ThreadPool → ThreadPool
schedule_loop [] p = record p { request_queue = [] }
schedule_loop (t ∷ rest) p =
    let (p', free) = get_free_thread p in
    elim free [
      | none ↦ record p' { request_queue = t ∷ rest }
      | some w ↦ schedule_loop rest (start_worker w t p')
    ]

pub schedule_from_queue : ThreadPool → ThreadPool
schedule_from_queue p = schedule_loop p.request_queue p

run_on : ℕ → ThreadPool → Option ℕ → ThreadPool
run_on t p none = record p { request_queue = p.request_queue ++ t ∷ [] }
run_on t p (some w) = start_worker w t p

pub run_as_thread : ℕ → ThreadPool → ThreadPool
unfolding run_on
run_as_thread t p = let (p', w) = get_free_thread p in run_on t p' w

pub submit_all : List ℕ → ThreadPool → ThreadPool
submit_all [] p = p
submit_all (t ∷ ts) p = submit_all ts (run_as_thread t p)

-- `cleandUp` of the job on slot `wid`; `submitted` are the jobs that its `finalize` hands in.
pub clean_up : List ℕ → ℕ → ThreadPool → ThreadPool
clean_up submitted wid p = schedule_from_queue (release_thread wid (submit_all submitted p))

-- What happens to a pool: a job is handed in, or a running one ends and is cleaned up.
pub data Step (p : ThreadPool) : ThreadPool → List ℕ → Type 0 where
  submit : (t : ℕ) → Step p (run_as_thread t p) (t ∷ [])
  finish :
      (wid t : ℕ) (submitted : List ℕ)
      → lookup wid p.worker ≡ some t
      → Step p (clean_up submitted wid p) submitted

-- Any number of steps from a new pool, with all the jobs handed in, oldest first.
pub data Reach (n : ℕ) : ThreadPool → List ℕ → Type 0 where
  start : Reach n (init n) []
  next :
      {p q : ThreadPool} {jobs more : List ℕ}
      → Reach n p jobs
      → Step p q more
      → Reach n q (jobs ++ more)

-- ===== src/ThreadPool/Counter.antt =====
-- What `activeThreads` counts.
use spectrum.Prelude.{
  ℕ, refl, ◌+◌, ◌≡◌, inl, inr, List, [], ◌∷◌, List-cases, length, length-append, nat_eq, some,
}
use spectrum.Prelude.Maps.{lookup}
use spectrum.Prelude.Members.{count-keys-lookup, length-insert_new, length-erase_one}
use spectrum.Prelude.Int.{pos, ◌+ℤ◌, int_laws}
use spectrum.ThreadPool.{
  ThreadPool, Step, submit, finish, Reach, start, next, init, get_free_thread, start_worker,
  schedule_loop, schedule_from_queue, release_thread, run_as_thread, submit_all, clean_up,
}
use spectrum.ThreadPool.Steps.{
  schedule_loop-full, schedule_loop-free, run_as_thread-full, run_as_thread-free,
}
use spectrum.ThreadPool.Slots.{
  Inv, KeepsBusy, Reach-Inv, start-Inv, run_as_thread-Inv, submit_all-Inv, lookup-submit_all,
  release_thread-Inv,
}

-- The counter is minus the running jobs and all the threads that were ever created.
abbrev Counts : ThreadPool → Type 0
Counts p = p.active_threads +ℤ pos (length p.worker + length p.created) ≡ pos 0

start-Counts :
    {n : ℕ} (p : ThreadPool) (t w : ℕ) (rest : List ℕ)
    → p.free_threads ≡ w ∷ rest
    → Inv n p
    → Counts p
    → Counts (start_worker w t (get_free_thread p).0)
unfolding start_worker get_free_thread
start-Counts p t w rest e v c =
    grind (int_laws, v.one_use w, length-append p.created (t ∷ []), length-insert_new w t p.worker)

schedule_loop-Counts :
    {n : ℕ} (queue : List ℕ) (p : ThreadPool) → Inv n p → Counts p → Counts (schedule_loop queue p)
unfolding schedule_loop
schedule_loop-Counts [] p v c = c
schedule_loop-Counts (t ∷ queue) p v c = elim (List-cases p.free_threads) [
  | inl e ↦ rw (schedule_loop-full t p queue e) c
  | inr (w, rest, e) ↦
      rw (schedule_loop-free t p w rest e queue)
        (schedule_loop-Counts queue _ (start-Inv p t w rest e v) (start-Counts p t w rest e v c))
]

run_as_thread-Counts :
    {n : ℕ} (t : ℕ) (p : ThreadPool) → Inv n p → Counts p → Counts (run_as_thread t p)
run_as_thread-Counts t p v c = elim (List-cases p.free_threads) [
  | inl e ↦ rw (run_as_thread-full t p e) c
  | inr (w, rest, e) ↦ rw (run_as_thread-free t p w rest e) (start-Counts p t w rest e v c)
]

submit_all-Counts :
    {n : ℕ} (ts : List ℕ) (p : ThreadPool)
    → Inv n p
    → KeepsBusy p
    → Counts p
    → Counts (submit_all ts p)
unfolding submit_all
submit_all-Counts [] p v b c = c
submit_all-Counts (t ∷ ts) p v b c =
    let (v', b') = run_as_thread-Inv t p v b in
    submit_all-Counts ts (run_as_thread t p) v' b' (run_as_thread-Counts t p v c)

release_thread-Counts :
    {n : ℕ} (i t : ℕ) (p : ThreadPool)
    → Inv n p
    → lookup i p.worker ≡ some t
    → Counts p
    → Counts (release_thread i p)
unfolding release_thread
release_thread-Counts i t p v e c =
    grind
      (int_laws, v.size, v.one_use i, count-keys-lookup i p.worker t e, length-erase_one i p.worker)

step-Counts :
    {n : ℕ} {p q : ThreadPool} {jobs : List ℕ}
    → Step p q jobs
    → Inv n p
    → KeepsBusy p
    → Counts p
    → Counts q
unfolding clean_up schedule_from_queue
step-Counts {p = p} (submit t) v b c = run_as_thread-Counts t p v c
step-Counts {p = p} (finish wid t submitted e) v b c =
    let (v', b') = submit_all-Inv submitted p v b in
    let held = lookup-submit_all wid t submitted p v b e in
    schedule_loop-Counts _ _ (release_thread-Inv wid t (submit_all submitted p) v' held) (
      release_thread-Counts wid t (submit_all submitted p) v' held
        (submit_all-Counts submitted p v b c))

pub Reach-active_threads :
    {n : ℕ} {p : ThreadPool} {jobs : List ℕ}
    → Reach n p jobs
    → p.active_threads +ℤ pos (length p.worker + length p.created) ≡ pos 0
unfolding init ◌+ℤ◌
Reach-active_threads start = refl
Reach-active_threads (next r s) =
    let (v, b) = Reach-Inv r in step-Counts s v b (Reach-active_threads r)

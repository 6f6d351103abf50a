-- ===== src/ThreadPool/Order.antt =====
-- Jobs get their threads in the order in which they were handed in.
use spectrum.Prelude.{
  ℕ, ◌≡◌, refl, sym, ap, ◌∙◌, inl, inr, List, [], ◌∷◌, ◌++◌, append-nil, append_assoc, arith,
  List-cases,
}
use spectrum.ThreadPool.{
  ThreadPool, Step, submit, finish, Reach, start, next, init, get_free_thread, start_worker,
  schedule_loop, schedule_from_queue, release_thread, run_as_thread, submit_all, clean_up,
}
use spectrum.ThreadPool.Steps.{
  schedule_loop-full, schedule_loop-free, run_as_thread-full, run_as_thread-free,
}
use spectrum.ThreadPool.Slots.{Inv, KeepsBusy, Reach-Inv, run_as_thread-Inv}

-- The jobs that have a thread, then those that wait for one.
abbrev pub jobs_of : ThreadPool → List ℕ
jobs_of p = p.created ++ p.request_queue

start_created :
    (p : ThreadPool) (t w : ℕ) (rest : List ℕ)
    → p.free_threads ≡ w ∷ rest
    → (start_worker w t (get_free_thread p).0).created ≡ p.created ++ t ∷ []
unfolding start_worker get_free_thread
start_created p t w rest e = ground arith

start_queue :
    (p : ThreadPool) (t w : ℕ) (rest : List ℕ)
    → p.free_threads ≡ w ∷ rest
    → (start_worker w t (get_free_thread p).0).request_queue ≡ p.request_queue
unfolding start_worker get_free_thread
start_queue p t w rest e = ground arith

jobs_of-schedule_loop :
    (queue : List ℕ) (p : ThreadPool) → jobs_of (schedule_loop queue p) ≡ p.created ++ queue
unfolding schedule_loop
jobs_of-schedule_loop [] p = refl
jobs_of-schedule_loop (t ∷ queue) p = elim (List-cases p.free_threads) [
  | inl e ↦ rw (schedule_loop-full t p queue e)
  | inr (w, rest, e) ↦ rw (schedule_loop-free t p w rest e queue) (
      jobs_of-schedule_loop queue _
      ∙ rw (start_created p t w rest e) (append_assoc p.created (t ∷ []) queue))
]

jobs_of-run_as_thread :
    (t : ℕ) (p : ThreadPool) → KeepsBusy p → jobs_of (run_as_thread t p) ≡ jobs_of p ++ t ∷ []
jobs_of-run_as_thread t p b = elim (List-cases p.free_threads) [
  | inl e ↦ rw (run_as_thread-full t p e) (sym (append_assoc p.created p.request_queue (t ∷ [])))
  | inr (w, rest, e) ↦
      rw (run_as_thread-free t p w rest e, start_created p t w rest e, start_queue p t w rest e)
        (idle e b)
]
  where
    idle :
        {w : ℕ} {rest : List ℕ}
        → p.free_threads ≡ w ∷ rest
        → KeepsBusy p
        → (p.created ++ t ∷ []) ++ p.request_queue ≡ jobs_of p ++ t ∷ []
    idle e (inl f) = cc (e, f)
    idle e (inr q) = rw q (simp append-nil)

jobs_of-submit_all :
    {n : ℕ} (ts : List ℕ) (p : ThreadPool)
    → Inv n p
    → KeepsBusy p
    → jobs_of (submit_all ts p) ≡ jobs_of p ++ ts
unfolding submit_all
jobs_of-submit_all [] p v b = sym (append-nil (jobs_of p))
jobs_of-submit_all (t ∷ ts) p v b =
    let (v', b') = run_as_thread-Inv t p v b in
    jobs_of-submit_all ts (run_as_thread t p) v' b'
    ∙ ap (λ (l : List ℕ). l ++ ts) (jobs_of-run_as_thread t p b)
    ∙ append_assoc (jobs_of p) (t ∷ []) ts

jobs_of-release_thread : (i : ℕ) (p : ThreadPool) → jobs_of (release_thread i p) ≡ jobs_of p
unfolding release_thread
jobs_of-release_thread i p = ground arith

jobs_of-step :
    {n : ℕ} {p q : ThreadPool} {jobs : List ℕ}
    → Step p q jobs
    → Inv n p
    → KeepsBusy p
    → jobs_of q ≡ jobs_of p ++ jobs
unfolding clean_up schedule_from_queue
jobs_of-step {p = p} (submit t) v b = jobs_of-run_as_thread t p b
jobs_of-step {p = p} (finish wid t submitted e) v b =
    jobs_of-schedule_loop _ _
    ∙ jobs_of-release_thread wid (submit_all submitted p)
    ∙ jobs_of-submit_all submitted p v b

-- In every pool that is reached from a new one, the jobs that got a thread, in the order in which
-- they got it, and after them the jobs that still wait, are the jobs handed in, oldest first.
pub Reach-fifo :
    {n : ℕ} {p : ThreadPool} {jobs : List ℕ} → Reach n p jobs → p.created ++ p.request_queue ≡ jobs
unfolding init
Reach-fifo start = refl
Reach-fifo (next {jobs = jobs} {more = more} r s) =
    let (v, b) = Reach-Inv r in jobs_of-step s v b ∙ ap (λ (l : List ℕ). l ++ more) (Reach-fifo r)

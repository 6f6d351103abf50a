-- ===== src/ThreadPool/Slots.antt =====
-- Every slot of the pool is free or has one worker, never both, and no job waits for a free slot.
use spectrum.Prelude.{
  ℕ, zero, suc, ◌+◌, ◌≡◌, refl, ◌⊎◌, inl, inr, List, [], ◌∷◌, some, arith, ltb, if◌then◌else◌,
  nat_eq, List-cases,
}
use spectrum.Prelude.Maps.{lookup, lookup-insert}
use spectrum.Prelude.Members.{
  count, keys, count-append, count-keys-insert, count-keys-erase, count-keys-lookup,
}
use spectrum.ThreadPool.Steps.{
  schedule_loop-full, schedule_loop-free, run_as_thread-full, run_as_thread-free,
}
use spectrum.ThreadPool.{
  ThreadPool, Step, submit, finish, Reach, start, next, init, push_slots, get_free_thread,
  start_worker, schedule_loop, schedule_from_queue, release_thread, run_as_thread, submit_all,
  clean_up,
}

-- How often slot `i` is free or has a worker.
abbrev pub uses_of : ℕ → ThreadPool → ℕ
uses_of i p = count i p.free_threads + count i (keys p.worker)

pub record Inv (n : ℕ) (p : ThreadPool) : Type 0 where
  pub size : p.max_threads ≡ n
  pub one_use : (i : ℕ) → uses_of i p ≡ (if ltb i n then 1 else 0)

abbrev pub KeepsBusy : ThreadPool → Type 0
KeepsBusy p = (p.free_threads ≡ []) ⊎ (p.request_queue ≡ [])

count-push_slots :
    (i k left : ℕ)
    → count k (push_slots i left) ≡ (if ltb k i then 0 else if ltb k (i + left) then 1 else 0)
unfolding push_slots
count-push_slots i k zero = ground arith
count-push_slots i k (suc left) = ground (arith, count-push_slots (i + 1) k left)

init-Inv : (n : ℕ) → Inv n (init n)
unfolding init
init-Inv n = record { size = refl; one_use = λ i. ground (arith, count-push_slots 0 i n) }

-- A job started on the slot at the front of the free list.
pub start-Inv :
    {n : ℕ} (p : ThreadPool) (t w : ℕ) (rest : List ℕ)
    → p.free_threads ≡ w ∷ rest
    → Inv n p
    → Inv n (start_worker w t (get_free_thread p).0)
unfolding start_worker get_free_thread
start-Inv p t w rest e v = record {
  size = ground (arith, v.size);
  one_use = λ i. ground (arith, v.one_use i, v.one_use w, count-keys-insert w i t p.worker);
}

start_idle_queue :
    (p : ThreadPool) (t w : ℕ) (rest : List ℕ)
    → p.free_threads ≡ w ∷ rest
    → KeepsBusy p
    → (start_worker w t (get_free_thread p).0).request_queue ≡ []
unfolding start_worker get_free_thread
start_idle_queue p t w rest e b = ground arith

pub schedule_loop-Inv :
    {n : ℕ} (queue : List ℕ) (p : ThreadPool)
    → Inv n p
    → Inv n (schedule_loop queue p) × KeepsBusy (schedule_loop queue p)
unfolding schedule_loop
schedule_loop-Inv [] p v = (record { size = v.size; one_use = v.one_use }, inr refl)
schedule_loop-Inv (t ∷ queue) p v = elim (List-cases p.free_threads) [
  | inl e ↦
      rw (schedule_loop-full t p queue e) (record { size = v.size; one_use = v.one_use }, inl e)
  | inr (w, rest, e) ↦
      rw (schedule_loop-free t p w rest e queue) (
        schedule_loop-Inv queue (start_worker w t (get_free_thread p).0) (start-Inv p t w rest e v))
]

pub run_as_thread-Inv :
    {n : ℕ} (t : ℕ) (p : ThreadPool)
    → Inv n p
    → KeepsBusy p
    → Inv n (run_as_thread t p) × KeepsBusy (run_as_thread t p)
run_as_thread-Inv t p v b = elim (List-cases p.free_threads) [
  | inl e ↦ rw (run_as_thread-full t p e) (record { size = v.size; one_use = v.one_use }, inl e)
  | inr (w, rest, e) ↦
      rw (run_as_thread-free t p w rest e)
        (start-Inv p t w rest e v, inr (start_idle_queue p t w rest e b))
]

pub submit_all-Inv :
    {n : ℕ} (ts : List ℕ) (p : ThreadPool)
    → Inv n p
    → KeepsBusy p
    → Inv n (submit_all ts p) × KeepsBusy (submit_all ts p)
unfolding submit_all
submit_all-Inv [] p v b = (v, b)
submit_all-Inv (t ∷ ts) p v b =
    let (v', b') = run_as_thread-Inv t p v b in submit_all-Inv ts (run_as_thread t p) v' b'

-- A slot that had a worker is free after its release, and no other slot changes.
pub release_thread-Inv :
    {n : ℕ} (i t : ℕ) (p : ThreadPool)
    → Inv n p
    → lookup i p.worker ≡ some t
    → Inv n (release_thread i p)
unfolding release_thread
release_thread-Inv {n} i t p v e = record {
  size = ground (arith, v.size);
  one_use = λ k. ground (
    arith,
    v.size,
    v.one_use i,
    v.one_use k,
    count-append k p.free_threads (i ∷ []),
    count-keys-erase i k p.worker,
    count-keys-lookup i p.worker t,
  );
}

-- Jobs that are handed in start on free slots, so a slot that is taken keeps its job.
lookup-run_as_thread :
    {n : ℕ} (k t j : ℕ) (p : ThreadPool)
    → Inv n p
    → lookup k p.worker ≡ some t
    → lookup k (run_as_thread j p).worker ≡ some t
unfolding start_worker get_free_thread
lookup-run_as_thread k t j p v e = elim (List-cases p.free_threads) [
  | inl full ↦ rw (run_as_thread-full j p full) e
  | inr (w, rest, free) ↦
      rw (run_as_thread-free j p w rest free)
        (ground (arith, v.one_use w, lookup-insert w k j p.worker, count-keys-lookup k p.worker t))
]

pub lookup-submit_all :
    {n : ℕ} (k t : ℕ) (ts : List ℕ) (p : ThreadPool)
    → Inv n p
    → KeepsBusy p
    → lookup k p.worker ≡ some t
    → lookup k (submit_all ts p).worker ≡ some t
unfolding submit_all
lookup-submit_all k t [] p v b e = e
lookup-submit_all k t (j ∷ ts) p v b e =
    let (v', b') = run_as_thread-Inv j p v b in
    lookup-submit_all k t ts (run_as_thread j p) v' b' (lookup-run_as_thread k t j p v e)

step-Inv :
    {n : ℕ} {p q : ThreadPool} {jobs : List ℕ}
    → Step p q jobs
    → Inv n p
    → KeepsBusy p
    → Inv n q × KeepsBusy q
unfolding clean_up schedule_from_queue
step-Inv {p = p} (submit t) v b = run_as_thread-Inv t p v b
step-Inv {p = p} (finish wid t submitted e) v b =
    let (v', b') = submit_all-Inv submitted p v b in
    schedule_loop-Inv _ _ (
      release_thread-Inv wid t (submit_all submitted p) v'
        (lookup-submit_all wid t submitted p v b e))

-- In every pool that is reached from a new one with `n` threads: each slot below `n` is either free
-- or has exactly one worker, no other slot is in use, and no job waits while a slot is free.
pub Reach-Inv : {n : ℕ} {p : ThreadPool} {jobs : List ℕ} → Reach n p jobs → Inv n p × KeepsBusy p
unfolding init
Reach-Inv {n = n} start = (init-Inv n, inr refl)
Reach-Inv (next r s) = let (v, b) = Reach-Inv r in step-Inv s v b

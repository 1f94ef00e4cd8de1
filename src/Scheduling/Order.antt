-- ===== src/Scheduling/Order.antt =====
-- The order in which a worker (scheduler/worker.py) runs its jobs.
use mathlib.Core.List.Permᴰ.{nil, cons, swap, trans}
use mathlib.Core.List.{Permᴰ}
use yasin_press_rewrite.Base.{
  ℕ, zero, suc, ◌≤◌, ◌≡◌, refl, ap, ◌∙◌, List, [], ◌∷◌, Option, none, some, In, inl, inr, length,
  arith,
}
use yasin_press_rewrite.Models.{Instant}
use yasin_press_rewrite.Scheduling.Jobs.{Job, Store, work}
use yasin_press_rewrite.Scheduling.Worker.{
  QueuedJob, GetNowait, IsPriorityQueue, Worker, run_once, run_all, pending_count,
}

-- Priorities that never go down, the first of them not below a bound.
abbrev pub IsRising : ℕ → List QueuedJob → Type 0
IsRising bound [] = Unit
IsRising bound (q ∷ order) = (bound ≤ q.priority) × IsRising q.priority order

In_permuted : {A : Type 0} (y : A) {xs ys : List A} → Permᴰ xs ys → In y xs → In y ys
In_permuted y nil m = m
In_permuted y (cons e p) (inl h) = inl (h ∙ e)
In_permuted y (cons e p) (inr m) = inr (In_permuted y p m)
In_permuted y (swap e f) (inl h) = inr (inl (h ∙ e))
In_permuted y (swap e f) (inr (inl h)) = inl (h ∙ f)
In_permuted y (swap e f) (inr (inr m)) = inr (inr m)
In_permuted y (trans p q) m = In_permuted y q (In_permuted y p m)

length_permuted : {A : Type 0} {xs ys : List A} → Permᴰ xs ys → length xs ≡ length ys
length_permuted nil = refl
length_permuted (cons e p) = ap suc (length_permuted p)
length_permuted (swap e f) = refl
length_permuted (trans p q) = length_permuted p ∙ length_permuted q

module _ (retries : ℕ) (begin finish : Instant) where
  -- The jobs of a list are run one after the other, each once with all its attempts, and no other:
  -- what they end as, with their priorities, and a worker with no job left and all of them stored.
  abbrev pub run_each : List QueuedJob → Store → List (ℕ × Job) × Worker
  run_each [] store = ([], record { queue = []; store = store })
  run_each (q ∷ order) store =
      let (ended, after) = work begin finish retries q.task q.job store in
      let (ran, end) = run_each order after in ((q.priority, ended) ∷ ran, end)

  -- What a call of run_all on a queue comes to.
  abbrev pub IsRunInOrder : ℕ → List QueuedJob → Store → List (ℕ × Job) × Worker → Type 0
  IsRunInOrder bound queue store end =
      (order : List QueuedJob) × Permᴰ order queue
      × IsRising bound order
      × (end ≡ run_each order store)

module _ (get : GetNowait) (promise : IsPriorityQueue get) (retries : ℕ)
    (begin finish : Instant) where
  run_once-gives :
      (queue : List QueuedJob) (store : Store) (x : QueuedJob) (rest : List QueuedJob)
      → get queue ≡ some (x, rest)
      → run_once get retries begin finish (record { queue = queue; store = store }) ≡ (
        some (x.priority, (work begin finish retries x.task x.job store).0),
        record { queue = rest; store = (work begin finish retries x.task x.job store).1 },
      )
  unfolding run_once
  run_once-gives queue store x rest e = rw (e, run_once) refl

  run_all-next :
      (fuel : ℕ) (w after : Worker) (r : ℕ × Job)
      → Path (Option (ℕ × Job) × Worker) (run_once get retries begin finish w) (some r, after)
      → Path (List (ℕ × Job) × Worker) (run_all get retries begin finish (suc fuel) w) (
        r ∷ (run_all get retries begin finish fuel after).0,
        (run_all get retries begin finish fuel after).1,
      )
  unfolding run_all
  run_all-next fuel w after r e =
      ap
        (λ (p : Option (ℕ × Job) × Worker). elim p.0 as (λ _. List (ℕ × Job) × Worker) [
          | none ↦ ([], p.1)
          | some r ↦ (
            r ∷ (run_all get retries begin finish fuel p.1).0,
            (run_all get retries begin finish fuel p.1).1,
          )
        ])
        e

  run_all-IsRunInOrder :
      (fuel bound : ℕ) (queue : List QueuedJob) (store : Store)
      → length queue ≡ fuel
      → ((y : QueuedJob) → In y queue → bound ≤ y.priority)
      → IsRunInOrder retries begin finish bound queue store
          (run_all get retries begin finish fuel (record { queue = queue; store = store }))
  unfolding run_all
  run_all-IsRunInOrder zero bound [] store h low = ([], nil, tt, refl)
  run_all-IsRunInOrder zero bound (q ∷ queue) store h low = absurd (omega (arith, h))
  run_all-IsRunInOrder (suc fuel) bound [] store h low = absurd (omega (arith, h))
  run_all-IsRunInOrder (suc fuel) bound (q ∷ queue) store h low =
      let (x, rest, given, same, least) = promise.gives q queue in
      let (order, perm, rising, ran) =
        run_all-IsRunInOrder fuel x.priority rest (work begin finish retries x.task x.job store).1
          (omega (arith, length_permuted same, h)) (λ y m. least y (In_permuted y same (inr m))) in
      (
        x ∷ order,
        trans (cons refl perm) same,
        (low x (In_permuted x same (inl refl)), rising),
        run_all-next fuel _ _ _ (run_once-gives (q ∷ queue) store x rest given)
            ∙ ap
                (λ (p : List (ℕ × Job) × Worker).
                  ((x.priority, (work begin finish retries x.task x.job store).0) ∷ p.0, p.1))
                ran,
      )

  -- With a priority queue that keeps its promise, run_all with as many rounds as there are jobs
  -- does what running the jobs of the queue in some order does, in which each of them stands once
  -- and the priorities never go down: every one is run with all its attempts and stored, no other
  -- is, and the queue is empty at the end.
  pub run_all_in_order :
      (w : Worker)
      → IsRunInOrder retries begin finish 0 w.queue w.store
          (run_all get retries begin finish (pending_count w) w)
  unfolding pending_count
  run_all_in_order w =
      run_all-IsRunInOrder (length w.queue) 0 w.queue w.store refl (λ y m. omega arith)

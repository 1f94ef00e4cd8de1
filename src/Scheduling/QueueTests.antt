-- ===== src/Scheduling/QueueTests.antt =====
-- A priority queue that keeps the promise of PriorityQueue, and a worker on it.
use mathlib.Core.List.Permᴰ.{nil, cons, swap, trans}
use mathlib.Core.List.{Permᴰ}
use yasin_press_rewrite.Base.{
  ◌≤◌, ◌≡◌, refl, inl, inr, List, [], ◌∷◌, none, some, In, leb, arith, Bool-cases, if◌then◌else◌,
}
use yasin_press_rewrite.Scheduling.Jobs.{Job, pending}
use yasin_press_rewrite.Scheduling.Worker.{
  QueuedJob, GetNowait, IsPriorityQueue, Worker, run_all, pending_count,
}
use yasin_press_rewrite.Scheduling.Order.{IsRunInOrder, run_all_in_order}

-- The first of the jobs with the lowest number.
unfoldable lowest : GetNowait
lowest [] = none
lowest (q ∷ queue) = elim (lowest queue) [
  | none ↦ some (q, [])
  | some (x, rest) ↦ if leb q.priority x.priority then some (q, x ∷ rest) else some (x, q ∷ rest)
]

lowest_gives :
    (q : QueuedJob) (queue : List QueuedJob)
    → (x : QueuedJob) × (rest : List QueuedJob) × (lowest (q ∷ queue) ≡ some (x, rest))
      × Permᴰ (x ∷ rest) (q ∷ queue)
      × ((y : QueuedJob) → In y (q ∷ queue) → x.priority ≤ y.priority)
unfolding lowest
lowest_gives q [] =
    (q, [], refl, cons refl nil, λ y m. elim m [ inl e ↦ rw e (omega arith) | inr n ↦ absurd n ])
lowest_gives q (p ∷ queue) =
    let (x, rest, e, same, least) = lowest_gives p queue in
    elim (Bool-cases (leb q.priority x.priority)) [
      | inl h ↦ (
        q,
        x ∷ rest,
        rw (e, h, lowest, if◌then◌else◌) refl,
        cons refl same,
        λ y m. elim m [ inl s ↦ rw s (omega arith) | inr n ↦ ground (arith, h, least y n) ],
      )
      | inr h ↦ (
        x,
        q ∷ rest,
        rw (e, h, lowest, if◌then◌else◌) refl,
        trans (swap refl refl) (cons refl same),
        λ y m. elim m [ inl s ↦ rw s (ground (arith, h)) | inr n ↦ least y n ],
      )
    ]

lowest-IsPriorityQueue : IsPriorityQueue lowest
unfolding lowest
lowest-IsPriorityQueue = record { empty = refl; gives = lowest_gives }

abbrev job : Job
job = record {
  id = "1";
  name = "feed-fetch";
  status = pending;
  attempts = 0;
  created_at = 3;
  started_at = none;
  finished_at = none;
  error = none;
}

abbrev worker : Worker
worker = record {
  queue =
      record { priority = 5; job = job; task = λ n. none }
      ∷ record { priority = 0; job = record job { id = "2" }; task = λ n. some "down" }
      ∷ [];
  store = [];
}

run_all_in_order_example :
    IsRunInOrder 3 10 20 0 worker.queue worker.store
      (run_all lowest 3 10 20 (pending_count worker) worker)
run_all_in_order_example = run_all_in_order lowest lowest-IsPriorityQueue 3 10 20 worker

-- ===== src/Scheduling/Worker.antt =====
-- scheduler/queue.py, scheduler/worker.py, scheduler/store.py, scheduler/tasks.py and scheduler/retry.py: the queue of
-- jobs by priority, the worker that empties it, and the store in memory. PriorityQueue is a parameter.
use mathlib.Core.List.{Permᴰ}
use yasin_press_rewrite.Base.{
  ℕ, zero, suc, ◌≤◌, ◌≡◌, String, List, [], ◌∷◌, Option, none, some, lookup, map, In, length,
  string_eq,
}
use yasin_press_rewrite.Models.{Instant}
use yasin_press_rewrite.Scheduling.Jobs.{Call, Job, Store, save, run, work}

-- A queued unit of work: the lifecycle job that `_pending` has for its task, and what the calls of the
-- task do. Each submission has a task and a lifecycle job of its own.
pub record QueuedJob : Type 0 where
  pub priority : ℕ
  pub job : Job
  pub task : ℕ → Call

-- `get_nowait` of a PriorityQueue: `none` is Empty.
abbrev pub GetNowait : Type 0
GetNowait = List QueuedJob → Option (QueuedJob × List QueuedJob)

-- What PriorityQueue promises: it is empty without jobs only, and gives one with the lowest priority number
-- and keeps the others.
pub record IsPriorityQueue (get : GetNowait) : Type 0 where
  pub empty : get [] ≡ none
  pub gives :
      (q : QueuedJob) (queue : List QueuedJob)
      → (x : QueuedJob) × (rest : List QueuedJob) × (get (q ∷ queue) ≡ some (x, rest))
        × Permᴰ (x ∷ rest) (q ∷ queue)
        × ((y : QueuedJob) → In y (q ∷ queue) → x.priority ≤ y.priority)

pub record Worker : Type 0 where
  pub queue : List QueuedJob
  pub store : Store

-- submit
unfoldable pub submit : ℕ → Job → (ℕ → Call) → Worker → Worker
unfolding save
submit priority job task w = record {
  queue = record { priority = priority; job = job; task = task } ∷ w.queue;
  store = save job w.store;
}

-- pending
unfoldable pub pending_count : Worker → ℕ
pending_count w = length w.queue

module _ (get : GetNowait) (retries : ℕ) (begin finish : Instant) where
  -- run_once: with the job that ran, and its place in the order of priorities.
  unfoldable pub run_once : Worker → Option (ℕ × Job) × Worker
  unfolding work
  run_once w = elim (get w.queue) [
    | none ↦ (none, w)
    | some (q, rest) ↦
        let (ended, store) = work begin finish retries q.task q.job w.store in
        (some (q.priority, ended), record { queue = rest; store = store })
  ]

  -- run_all, on fuel: the jobs that ran, in their order, with their priorities.
  unfoldable pub run_all : ℕ → Worker → List (ℕ × Job) × Worker
  unfolding run_once
  run_all zero w = ([], w)
  run_all (suc fuel) w =
      let (ran, after) = run_once w in
      let (more, end) = run_all fuel after in
      elim ran [ none ↦ ([], after) | some r ↦ (r ∷ more, end) ]

-- JobStore of store.py: get and all.
unfoldable pub stored_job : String → Store → Option Job
stored_job id store = lookup id store

unfoldable pub stored_jobs : Store → List Job
stored_jobs store = map (λ (p : String × Job). p.1) store

-- execute_job, with the clock readings of JobRunner.
unfoldable pub execute_job : Instant → Instant → Call → Job → Store → Job × Store
unfolding run save
execute_job start end call job store =
    let result : Job = run start end call job in (result, save result (save job store))

-- RetryPolicy.run: the calls that it makes, the exponents of its sleeps, one after each failure, and the
-- exception that it raises.
unfoldable pub run_retried : ℕ → ℕ → (ℕ → Call) → Call → List ℕ × Call
run_retried zero attempt func last = ([], last)
run_retried (suc left) attempt func last =
    let failed : Call = func attempt in
    let (sleeps, raised) = run_retried left (suc attempt) func failed in
    elim failed [ none ↦ ([], none) | some e ↦ (attempt ∷ sleeps, raised) ]

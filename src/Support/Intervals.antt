-- ===== src/Support/Intervals.antt =====
-- scheduler/scheduler.py: tasks that run at intervals, with JobExecution of scheduler/jobs.py. What a
-- handler does is `none` or the text of an exception.
use yasin_press_rewrite.Base.{
  ℕ, ◌+◌, String, List, [], ◌∷◌, ◌++◌, Option, none, some, ltb, ◌==◌, nat_eq, if◌then◌else◌,
}
use yasin_press_rewrite.Models.{Instant}
use yasin_press_rewrite.Scheduling.Jobs.{JobStatus, succeeded, failed}

pub record JobExecution : Type 0 where
  pub name : String
  pub status : JobStatus
  pub attempts : ℕ
  pub started_at : Option Instant
  pub finished_at : Option Instant
  pub error : Option String

-- JobExecution(name=...).run(handler), with one clock reading.
unfoldable pub execute : Instant → String → Option String → JobExecution
execute now name none = record {
  name = name;
  status = succeeded;
  attempts = 1;
  started_at = some now;
  finished_at = some now;
  error = none;
}
execute now name (some e) = record {
  name = name;
  status = failed;
  attempts = 1;
  started_at = some now;
  finished_at = some now;
  error = some e;
}

pub record ScheduledTask : Type 0 where
  pub name : String
  pub interval : ℕ
  pub handler : Instant → Option String
  pub next_run_at : Instant

-- add_interval: `none` is the ValueError for an interval that is not positive.
unfoldable pub add_interval :
    Instant
    → String
    → ℕ
    → (Instant → Option String)
    → List ScheduledTask
    → Option (List ScheduledTask)
add_interval now name interval handler tasks =
    if interval == 0
    then none
    else some (
        tasks
        ++ record { name = name; interval = interval; handler = handler; next_run_at = now } ∷ [])

-- run_due: the executions, and the tasks after.
unfoldable pub run_due : Instant → List ScheduledTask → List JobExecution × List ScheduledTask
unfolding execute
run_due now [] = ([], [])
run_due now (t ∷ tasks) =
    let (ran, rest) = run_due now tasks in
    if ltb now t.next_run_at then (ran, t ∷ rest) else (
      execute now t.name (t.handler now) ∷ ran,
      record t { next_run_at = now + t.interval } ∷ rest,
    )

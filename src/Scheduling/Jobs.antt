-- ===== src/Scheduling/Jobs.antt =====
-- scheduler/jobs.py, scheduler/worker.py and recovery.py: the lifecycle of a job that runs a handler.
use yasin_press_rewrite.Base.{
  ℕ, zero, suc, ◌+◌, String, Bool, true, false, List, [], ◌∷◌, Option, none, some, Dict, put,
  string_eq, if◌then◌else◌,
}
use yasin_press_rewrite.Models.{Instant}

pub data JobStatus : Type 0 where
  pending running succeeded failed : JobStatus

pub record Job : Type 0 where
  pub id : String
  pub name : String
  pub status : JobStatus
  pub attempts : ℕ
  pub created_at : Instant
  pub started_at : Option Instant
  pub finished_at : Option Instant
  pub error : Option String

-- One call of a handler: `none`, or the text of the exception that it raises.
abbrev pub Call : Type 0
Call = Option String

-- JobRunner.run, with the clock readings before and after the handler.
unfoldable pub run : Instant → Instant → Call → Job → Job
run start end call job = elim call [
  | none ↦ record job {
    status = succeeded;
    started_at = some start;
    attempts = job.attempts + 1;
    error = none;
    finished_at = some end;
  }
  | some e ↦ record job {
    status = failed;
    started_at = some start;
    attempts = job.attempts + 1;
    error = some e;
    finished_at = some end;
  }
]

-- A persistence store keeps a snapshot of each job under its id.
abbrev pub Store : Type 0
Store = Dict String Job

unfoldable pub save : Job → Store → Store
save job store = put job.id job store

-- The loop of Worker.run_once over the attempts from the `attempt`-th on, `left` of them: the job
-- after it, and the exponents of the sleeps `delay * 2 ** attempt`.
unfoldable pub attempts_from : (ℕ → Call) → ℕ → ℕ → Job → Job × List ℕ
attempts_from task zero attempt job = (job, [])
attempts_from task (suc left) attempt job =
    let tried : Job = record job { attempts = job.attempts + 1 } in
    let wrong : String → Job = λ e. record tried { error = some e } in
    elim (task attempt) [
      | none ↦ (record tried { status = succeeded; error = none }, [])
      | some e ↦ elim left [
        | zero ↦ (record (wrong e) { status = failed }, [])
        | suc more ↦
            let (after, sleeps) = attempts_from task left (suc attempt) (wrong e) in
            (after, attempt ∷ sleeps)
      ]
    ]

-- Worker.run_once for the job that the queue gave, under a policy of `retries` attempts.
unfoldable pub work : Instant → Instant → ℕ → (ℕ → Call) → Job → Store → Job × Store
unfolding save attempts_from
work start end retries task job store =
    let begun : Job = record job { status = running; started_at = some start } in
    let ended : Job = record ((attempts_from task retries 0 begun).0) { finished_at = some end } in
    (ended, save ended (save begun store))

unfoldable pub is_running : JobStatus → Bool
is_running running = true
is_running _ = false

-- The assignments of recover_jobs to an interrupted job.
unfoldable pub interrupted : Job → Job
interrupted job = record job {
  status = pending;
  started_at = none;
  error = some "recovered after interrupted runtime";
}

pub record RecoveryReport : Type 0 where
  pub recovered : ℕ
  pub skipped : ℕ

unfoldable pub recover_jobs : List Job → Store → RecoveryReport × Store
unfolding save interrupted is_running
recover_jobs [] store = (record { recovered = 0; skipped = 0 }, store)
recover_jobs (job ∷ jobs) store =
    if is_running job.status
    then (let (report, after) = recover_jobs jobs (save (interrupted job) store) in
        (record report { recovered = report.recovered + 1 }, after))
    else let (report, after) = recover_jobs jobs store in
      (record report { skipped = report.skipped + 1 }, after)

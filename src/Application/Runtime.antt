-- ===== src/Application/Runtime.antt =====
-- runtime.py, runtime_worker.py and health.py: the loop of the process, and the worker that recovers,
-- publishes and reports. A tick, the recovery hook and the sender of reports are parameters: `none`, or
-- the text of an exception.
use yasin_press_rewrite.Base.{
  ℕ, ◌+◌, String, ◌||◌, List, [], ◌∷◌, Option, none, some, leb, ◌==◌, nat_eq, if◌then◌else◌,
}
use yasin_press_rewrite.Models.{Instant}
use yasin_press_rewrite.Engine.Finish.{recover_expired_leases}
use yasin_press_rewrite.Engine.Run.{Ran, idle, done, integrity_error, job_not_found}
use yasin_press_rewrite.Engine.Reach.{World}
use yasin_press_rewrite.Scheduling.Watchdog.{Watchdog, record_success, record_failure}
use yasin_press_rewrite.Support.Reports.{Dispatcher, dispatch}

-- The constructor of Runtime: `none` is its ValueError.
pub record Runtime : Type 0 where
  pub interval : ℕ
  pub max_consecutive_failures : ℕ
  pub watchdog : Watchdog

unfoldable pub new_runtime : ℕ → ℕ → Watchdog → Option Runtime
new_runtime interval max_failures w =
    if (interval == 0) || (max_failures == 0)
    then none
    else some
        (record { interval = interval; max_consecutive_failures = max_failures; watchdog = w })

-- One round of the loop: what the tick does, and what the recovery hook would do, if there is one.
pub record RuntimeRound : Type 0 where
  pub now : Instant
  pub tick : Option String
  pub recover : Option (Option String)

unfoldable pub recovered_round : Instant → Option (Option String) → Watchdog → Watchdog
recovered_round now none w = w
recovered_round now (some none) w = record_success now w
recovered_round now (some (some error)) w = record_failure error now w

unfoldable pub run_round : ℕ → RuntimeRound → Watchdog → Watchdog
unfolding recovered_round
run_round max_failures r w = elim r.tick [
  | none ↦ record_success r.now w
  | some error ↦
      let counted : Watchdog = record_failure error r.now w in
      if leb max_failures counted.consecutive_failures
      then recovered_round r.now r.recover counted
      else counted
]

-- The rounds until the runtime is stopped.
unfoldable pub run_rounds : ℕ → List RuntimeRound → Watchdog → Watchdog
unfolding run_round
run_rounds max_failures [] w = w
run_rounds max_failures (r ∷ rounds) w = run_rounds max_failures rounds (run_round max_failures r w)

-- PublicationWorker over the shared database.
pub record PublicationWorker (P : Type 0) : Type 0 where
  pub reports : Option (Dispatcher P)
  pub last_tick_at : Option Instant
  pub tick_count : ℕ

module _ {P : Type 0} (publish_once : World → Ran × World) (payload : World → P)
    (sender : Option String) where
  -- `self.reports.dispatch(self.queue, now=current)`, if there are reports.
  unfoldable pub report_tick : World → Option (Dispatcher P) → Option (Dispatcher P)
  report_tick w none = none
  report_tick w (some d) = some (dispatch w.now (payload w) sender d).1

  -- tick: an exception of publish_once leaves the worker as it was.
  unfoldable pub worker_tick : World → PublicationWorker P → Ran × (PublicationWorker P × World)
  unfolding report_tick
  worker_tick w p =
      let freed : World = record w { db = (recover_expired_leases w.now w.db).1 } in
      let (result, after) = publish_once freed in
      let ticked : PublicationWorker P = record {
        reports = report_tick after p.reports;
        last_tick_at = some w.now;
        tick_count = p.tick_count + 1;
      } in
      elim result [
        | idle ↦ (idle, (ticked, after))
        | done r ↦ (done r, (ticked, after))
        | integrity_error ↦ (integrity_error, (p, after))
        | job_not_found ↦ (job_not_found, (p, after))
      ]

-- ===== src/Scheduling/Callback.antt =====
-- scheduler/callback_scheduler.py: the single-flight scheduler of a callback. The callback and other
-- threads may call `stop`.
use yasin_press_rewrite.Base.{
  ℕ, zero, suc, ◌+◌, String, Bool, true, false, ◌||◌, Option, none, some, ◌==◌, nat_eq,
  if◌then◌else◌,
}
use yasin_press_rewrite.Models.{Instant}
use yasin_press_rewrite.Scheduling.Watchdog.{Watchdog, record_success, record_failure}

-- What `self.tick()` does: it returns or raises.
pub data Answer (A : Type 0) : Type 0 where
  result : A → Answer A
  error : String → Answer A

-- One tick: its clock reading, what the callback does, whether `stop` is called before it ends, and
-- whether it is called while the scheduler waits for the next one.
pub record Round (A : Type 0) : Type 0 where
  pub now : Instant
  pub answer : Answer A
  pub stops : Bool
  pub stops_waiting : Bool

pub record Scheduler (A : Type 0) : Type 0 where
  pub watchdog : Watchdog
  pub stopped : Bool
  pub running : Bool
  pub last_result : Option A
  pub last_error : Option String
  pub ticks : ℕ

unfoldable pub answered : {A : Type 0} → Instant → Answer A → Scheduler A → Option A × Scheduler A
answered now (error e) s =
    (none, record s { last_error = some e; watchdog = record_failure e now s.watchdog })
answered now (result a) s = (
  some a,
  record s {
    last_result = some a;
    last_error = none;
    watchdog = record_success now s.watchdog;
    ticks = s.ticks + 1;
  },
)

-- The lock `_running` is acquired, and released at the end, whatever the callback did.
unfoldable pub run_once : {A : Type 0} → Round A → Scheduler A → Option A × Scheduler A
unfolding answered
run_once r s =
    if s.stopped
    then (none, s)
    else if s.running
    then (none, s)
    else (let (given, after) =
          answered r.now r.answer (record s { stopped = r.stops; running = true }) in
        (given, record after { running = false }))

-- The loop of run, with `max_ticks` ticks left and the rounds from the `i`-th on.
unfoldable pub run : {A : Type 0} → (ℕ → Round A) → ℕ → ℕ → Scheduler A → ℕ × Scheduler A
unfolding run_once
run rounds zero i s = (0, s)
run rounds (suc left) i s =
    let after : Scheduler _ = (run_once (rounds i) s).1 in
    let rest : ℕ × Scheduler _ =
      run rounds left (suc i)
        (record after { stopped = after.stopped || (rounds i).stops_waiting }) in
    if s.stopped
    then (0, s)
    else if after.stopped || (left == 0)
    then (1, after)
    else (rest.0 + 1, rest.1)

-- ===== src/Scheduling/Tests.antt =====
-- The runners and watchdogs at concrete inputs.
use yasin_press_rewrite.Base.{
  ℕ, ◌+◌, ◌<◌, ◌≡◌, true, false, String, [], ◌∷◌, none, some, arith, leb, none_or, lookup,
  string_eq, ◌==◌, nat_eq, if◌then◌else◌,
}
use yasin_press_rewrite.Scheduling.Callback.{result, Round, Scheduler}
use yasin_press_rewrite.Scheduling.Heartbeats.{
  Heartbeat, healthy, WatchdogPolicy, Attempt, tried, inspect, inspect_one, recover_stale,
  may_recover, called, give_up,
}
use yasin_press_rewrite.Scheduling.Jobs
use yasin_press_rewrite.Scheduling.Jobs.{Call, Job, Store, work, recover_jobs}
use yasin_press_rewrite.Scheduling.Supervision.{IsBounded, inspect-IsBounded, inspect_one-due}
use yasin_press_rewrite.Scheduling.Attempts.{IsTried, work-IsTried}

abbrev idle_scheduler : Scheduler ℕ
idle_scheduler = record {
  watchdog = record {
    stale_after = 120;
    last_tick_at = none;
    consecutive_failures = 0;
    last_error = none;
  };
  stopped = false;
  running = false;
  last_result = none;
  last_error = none;
  ticks = 0;
}

abbrev rounds : ℕ → Round ℕ
rounds n = record { now = n + 1000; answer = result n; stops = n == 2; stops_waiting = false }

abbrev policy : WatchdogPolicy
policy = record { stale_after = 120; max_recovery_attempts = 3; recovery_cooldown = 300 }

abbrev worker : Heartbeat
worker = record {
  name = "worker";
  last_seen = 0;
  state = healthy;
  recovery_attempts = 2;
  last_error = none;
}

abbrev unable : String → Attempt
unable name = tried false

inspect-IsBounded_example :
    IsBounded policy (inspect policy 1000 (some unable) (("worker", worker) ∷ []) []).0
inspect-IsBounded_example =
    inspect-IsBounded policy 1000 (some unable) (("worker", worker) ∷ []) [] (omega arith, tt)

inspect_one-due_example :
    (0 + 120 < 1000) × (2 < 3) × (none_or (some 500) (λ p. leb (p + 300) 1000) ≡ true)
unfolding inspect_one recover_stale may_recover called give_up
inspect_one-due_example = inspect_one-due policy 1000 (some unable) worker (some 500) (omega arith)

abbrev job : Job
job = record {
  id = "j";
  name = "feed:irna";
  status = Jobs.running;
  attempts = 0;
  created_at = 0;
  started_at = none;
  finished_at = none;
  error = none;
}

abbrev task : ℕ → Call
task n = if n == 1 then none else some "timed out"

work-IsTried_example :
    IsTried task 0 3 0 (work 10 20 3 task job []).0
    × (lookup "j" (work 10 20 3 task job []).1 ≡ some (work 10 20 3 task job []).0)
work-IsTried_example = work-IsTried task 10 20 2 job []

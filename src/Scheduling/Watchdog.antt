-- ===== src/Scheduling/Watchdog.antt =====
-- yasinpress/watchdog.py: stale detection and a count of failures in a row.
use yasin_press_rewrite.Base.{
  ℕ, ◌+◌, String, Bool, true, ◌&&◌, not, Option, none, some, ltb, ◌==◌, nat_eq, if◌then◌else◌,
}
use yasin_press_rewrite.Models.{Instant}

pub record Watchdog : Type 0 where
  pub stale_after : ℕ
  pub last_tick_at : Option Instant
  pub consecutive_failures : ℕ
  pub last_error : Option String

-- __init__: `none` is the ValueError for a span that is not positive.
unfoldable pub watchdog : ℕ → Option Watchdog
watchdog stale_after =
    if stale_after == 0
    then none
    else some (record {
      stale_after = stale_after;
      last_tick_at = none;
      consecutive_failures = 0;
      last_error = none;
    })

unfoldable pub record_success : Instant → Watchdog → Watchdog
record_success now w = record w {
  last_tick_at = some now;
  consecutive_failures = 0;
  last_error = none;
}

unfoldable pub record_failure : String → Instant → Watchdog → Watchdog
record_failure error now w = record w {
  last_tick_at = some now;
  consecutive_failures = w.consecutive_failures + 1;
  last_error = some error;
}

pub record WatchdogStatus : Type 0 where
  pub last_tick_at : Option Instant
  pub consecutive_failures : ℕ
  pub healthy : Bool
  pub last_error : Option String
  pub stale : Bool

-- `current - self.last_tick_at > self.stale_after`, or no tick yet
unfoldable pub is_stale : Instant → Watchdog → Bool
is_stale now w = elim w.last_tick_at [ none ↦ true | some t ↦ ltb (t + w.stale_after) now ]

unfoldable pub status : Instant → Watchdog → WatchdogStatus
unfolding is_stale
status now w = record {
  last_tick_at = w.last_tick_at;
  consecutive_failures = w.consecutive_failures;
  healthy = not (is_stale now w) && (w.consecutive_failures == 0);
  last_error = w.last_error;
  stale = is_stale now w;
}

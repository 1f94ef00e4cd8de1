-- ===== src/Scheduling/Ticks.antt =====
-- How the scheduler's loop ends, and what the watchdog says after a tick.
use yasin_press_rewrite.Base.{ℕ, ◌≤◌, ◌≡◌, ◌⊎◌, Bool, true, false, nat_eq}
use yasin_press_rewrite.Scheduling.Callback.{Answer, result, error, Scheduler}

abbrev pub is_result : {A : Type 0} → Answer A → Bool
is_result (result a) = true
is_result (error e) = false

-- How a run of at most `limit` ticks ends: with its ticks done, or stopped; and the lock is free.
pub record IsEnded {A : Type 0} (limit : ℕ) (end : ℕ × Scheduler A) : Type 0 where
  pub within : end.0 ≤ limit
  pub cause : (end.0 ≡ limit) ⊎ (end.1.stopped ≡ true)
  pub free : end.1.running ≡ false

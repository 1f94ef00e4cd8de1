-- ===== src/Scheduling/Supervision.antt =====
-- Recovery is bounded: the attempts, and the time between them.
use yasin_press_rewrite.Base.{
  ◌+◌, ◌≤◌, ◌<◌, ◌≡◌, String, true, false, [], ◌∷◌, Option, none, some, arith, All, leb, none_or,
  Dict, lookup, string_eq,
}
use yasin_press_rewrite.Models.{Instant}
use yasin_press_rewrite.Scheduling.Heartbeats.{
  Heartbeat, degraded, WatchdogPolicy, Attempt, tried, raised, beat, give_up, called, may_recover,
  recover_stale, inspect_one, inspect,
}

abbrev pub IsBounded : WatchdogPolicy → Dict String Heartbeat → Type 0
IsBounded policy hs =
    All (λ (e : String × Heartbeat). e.1.recovery_attempts ≤ policy.max_recovery_attempts) hs

module _ (policy : WatchdogPolicy) (now : Instant) where
  called-bounded :
      (a : Attempt) (h : Heartbeat)
      → h.recovery_attempts ≤ policy.max_recovery_attempts
      → (called policy now a h).0.recovery_attempts ≤ policy.max_recovery_attempts
  unfolding called beat give_up
  called-bounded (tried true) h k = ground (arith, k)
  called-bounded (tried false) h k = ground (arith, k)
  called-bounded (raised e) h k = ground (arith, k)

  inspect_one-bounded :
      (callback : Option (String → Attempt)) (h : Heartbeat) (previous : Option Instant)
      → h.recovery_attempts ≤ policy.max_recovery_attempts
      → (inspect_one policy now callback h previous).0.recovery_attempts
        ≤ policy.max_recovery_attempts
  unfolding inspect_one recover_stale may_recover
  inspect_one-bounded none h previous k = ground (arith, k)
  inspect_one-bounded (some recover) h previous k = ground (
    arith,
    k,
    called-bounded (recover h.name)
        (record h { state = degraded; recovery_attempts = h.recovery_attempts + 1 }),
  )

  -- Where every component's recovery attempts are at most the policy's maximum, they are so after
  -- inspect, with any callback.
  pub inspect-IsBounded :
      (callback : Option (String → Attempt)) (hs : Dict String Heartbeat)
      (last : Dict String Instant)
      → IsBounded policy hs
      → IsBounded policy (inspect policy now callback hs last).0
  unfolding inspect
  inspect-IsBounded callback [] last k = tt
  inspect-IsBounded callback ((name, h) ∷ more) last k = (
    inspect_one-bounded callback h (lookup h.name last) k.0,
    inspect-IsBounded callback more _ k.1,
  )

  -- A recovery attempt is counted only for a stale component with attempts left, whose last
  -- attempt, if it had one, is at least the cooldown ago.
  pub inspect_one-due :
      (callback : Option (String → Attempt)) (h : Heartbeat) (previous : Option Instant)
      → h.recovery_attempts < (inspect_one policy now callback h previous).0.recovery_attempts
      → (h.last_seen + policy.stale_after < now)
        × (h.recovery_attempts < policy.max_recovery_attempts)
        × (none_or previous (λ p. leb (p + policy.recovery_cooldown) now) ≡ true)
  unfolding inspect_one recover_stale may_recover
  inspect_one-due none h previous k = absurd (ground (arith, k))
  inspect_one-due (some recover) h previous k = ground (arith, k)

-- ===== src/Scheduling/Heartbeats.antt =====
-- scheduler/watchdog.py: heartbeats with bounded recovery.
use yasin_press_rewrite.Base.{
  ℕ, ◌+◌, String, Bool, true, false, ◌&&◌, [], ◌∷◌, Option, none, some, ltb, leb, ◌==◌, string_eq,
  if◌then◌else◌, Dict, lookup, put, none_or,
}
use yasin_press_rewrite.Models.{Instant}

pub data HealthState : Type 0 where
  healthy degraded failed : HealthState

pub record Heartbeat : Type 0 where
  pub name : String
  pub last_seen : Instant
  pub state : HealthState
  pub recovery_attempts : ℕ
  pub last_error : Option String

unfoldable pub beat : Instant → Bool → Heartbeat → Heartbeat
beat now reset h = record h {
  last_seen = now;
  state = healthy;
  last_error = none;
  recovery_attempts = if reset then 0 else h.recovery_attempts;
}

pub record WatchdogPolicy : Type 0 where
  pub stale_after : ℕ
  pub max_recovery_attempts : ℕ
  pub recovery_cooldown : ℕ

-- The component's heartbeats, and `_last_recovery`.
pub record Supervisor : Type 0 where
  pub heartbeats : Dict String Heartbeat
  pub last_recovery : Dict String Instant

abbrev pub new_heartbeat : Instant → String → Heartbeat
new_heartbeat now name = record {
  name = name;
  last_seen = now;
  state = healthy;
  recovery_attempts = 0;
  last_error = none;
}

-- register: `none` is the ValueError for an empty name.
unfoldable pub register : Instant → String → Supervisor → Option Supervisor
register now name s =
    if name == ""
    then none
    else some (record s { heartbeats = put name (new_heartbeat now name) s.heartbeats })

unfoldable pub touch : Instant → String → Supervisor → Option Supervisor
unfolding register beat
touch now name s = elim (lookup name s.heartbeats) [
  | some h ↦ some (record s { heartbeats = put name (beat now false h) s.heartbeats })
  | none ↦ register now name s
]

-- What a call of `recover(name)` does: it returns a truth value, or raises an exception of the class.
pub data Attempt : Type 0 where
  tried : Bool → Attempt
  raised : String → Attempt

-- A heartbeat with the entry of `_last_recovery` under its name.
abbrev pub Entry : Type 0
Entry = Heartbeat × Option Instant

-- After a call that did not recover.
unfoldable pub give_up : WatchdogPolicy → Heartbeat → Heartbeat
give_up policy h =
    if leb policy.max_recovery_attempts h.recovery_attempts then record h { state = failed } else h

unfoldable pub called : WatchdogPolicy → Instant → Attempt → Heartbeat → Entry
unfolding beat give_up
called policy now (tried true) h = (beat now true h, none)
called policy now (tried false) h = (give_up policy h, some now)
called policy now (raised error) h =
    (give_up policy (record h { last_error = some error }), some now)

-- Whether `recover` is called: the attempts are not used up, and the cooldown is over.
unfoldable pub may_recover : WatchdogPolicy → Instant → Heartbeat → Option Instant → Bool
may_recover policy now h previous =
    ltb h.recovery_attempts policy.max_recovery_attempts
    && none_or previous (λ p. leb (p + policy.recovery_cooldown) now)

-- The part of the body for a stale heartbeat, with a callback.
unfoldable pub recover_stale :
    WatchdogPolicy → Instant → (String → Attempt) → Heartbeat → Option Instant → Entry
unfolding called may_recover
recover_stale policy now recover h previous =
    if leb policy.max_recovery_attempts h.recovery_attempts
    then (record h { state = failed }, previous)
    else if may_recover policy now h previous
    then called policy now (recover h.name)
        (record h { state = degraded; recovery_attempts = h.recovery_attempts + 1 })
    else (record h { state = degraded }, previous)

-- The body of the loop of inspect.
unfoldable pub inspect_one :
    WatchdogPolicy → Instant → Option (String → Attempt) → Heartbeat → Option Instant → Entry
unfolding recover_stale
inspect_one policy now callback h previous =
    if leb now (h.last_seen + policy.stale_after) then (h, previous) else elim callback [
      | none ↦ (record h { state = degraded }, previous)
      | some recover ↦ recover_stale policy now recover h previous
    ]

unfoldable pub erase : String → Dict String Instant → Dict String Instant
erase name [] = []
erase name ((k, t) ∷ d) = if name == k then d else (k, t) ∷ erase name d

unfoldable pub write : String → Option Instant → Dict String Instant → Dict String Instant
unfolding erase
write name none d = erase name d
write name (some t) d = put name t d

unfoldable pub inspect :
    WatchdogPolicy
    → Instant
    → Option (String → Attempt)
    → Dict String Heartbeat
    → Dict String Instant
    → Dict String Heartbeat × Dict String Instant
unfolding inspect_one write
inspect policy now callback [] last = ([], last)
inspect policy now callback ((k, h) ∷ more) last =
    let (h', entry) = inspect_one policy now callback h (lookup h.name last) in
    let (more', last') = inspect policy now callback more (write h.name entry last) in
    ((k, h') ∷ more', last')

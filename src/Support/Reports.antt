-- ===== src/Support/Reports.antt =====
-- monitoring/dispatcher.py and monitoring/hourly.py. What the sender does is `none` or the text of an
-- exception.
use yasin_press_rewrite.Base.{
  ℕ, ◌+◌, ◌/◌, String, Bool, true, false, not, Option, none, some, leb, none_or, some_and, ◌==◌,
  nat_eq, if◌then◌else◌,
}
use yasin_press_rewrite.Models.{Instant, one_hour}

pub record ReportDelivery (P : Type 0) : Type 0 where
  pub sent_at : Instant
  pub payload : P
  pub success : Bool
  pub error : Option String

pub record Dispatcher (P : Type 0) : Type 0 where
  pub interval : ℕ
  pub last_sent_at : Option Instant
  pub last_delivery : Option (ReportDelivery P)

unfoldable pub due : {P : Type 0} → Instant → Dispatcher P → Bool
due now d = none_or d.last_sent_at (λ t. leb (t + d.interval) now)

unfoldable pub delivered : {P : Type 0} → Instant → P → Option String → ReportDelivery P
delivered now payload none = record {
  sent_at = now;
  payload = payload;
  success = true;
  error = none;
}
delivered now payload (some e) = record {
  sent_at = now;
  payload = payload;
  success = false;
  error = some e;
}

-- A failed delivery leaves the report due.
unfoldable pub dispatch :
    {P : Type 0}
    → Instant
    → P
    → Option String
    → Dispatcher P
    → Option (ReportDelivery P) × Dispatcher P
unfolding due delivered
dispatch now payload call d =
    if due now d
    then (
      some (delivered now payload call),
      record d {
        last_delivery = some (delivered now payload call);
        last_sent_at = elim call [ none ↦ some now | some e ↦ d.last_sent_at ];
      },
    )
    else (none, d)

-- HourlyReportScheduler, with the hours counted since the epoch.
unfoldable pub hour_of : Instant → ℕ
hour_of now = now / one_hour

unfoldable pub due_hour : Instant → Option ℕ → Bool
due_hour now last_hour = not (some_and last_hour (λ h. h == hour_of now))

unfoldable pub run_if_due : {R : Type 0} → Instant → R → Option ℕ → Option R × Option ℕ
unfolding due_hour hour_of
run_if_due now report last_hour =
    if due_hour now last_hour then (some report, some (hour_of now)) else (none, last_hour)

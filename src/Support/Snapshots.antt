-- ===== src/Support/Snapshots.antt =====
-- monitoring/snapshot.py, report.py, store.py and metrics.py: the numbers that reports are made of. What a
-- report is written as in the table is a parameter.
use yasin_press_rewrite.Base.{
  ℕ, ◌+◌, String, Bool, if◌then◌else◌, ◌++◌, List, [], ◌∷◌, Option, none, some, Dict, lookup, put,
  leb, max, take, sort_by, ◌==◌, string_eq, nat_eq, ◌>>=◌,
}
use yasin_press_rewrite.Models.{Instant}
use yasin_press_rewrite.Database.{Db}
use yasin_press_rewrite.Engine.Config.{QueueConfig}
use yasin_press_rewrite.Engine.Consumed.{EngineMetrics, metrics}

-- The engine has no source_health.
pub record RuntimeSnapshot : Type 0 where
  pub captured_at : Instant
  pub queue_pending : ℕ
  pub queue_processing : ℕ
  pub queue_retrying : ℕ
  pub queue_failed : ℕ
  pub queue_dead_letter : ℕ
  pub published_last_hour : ℕ

unfoldable pub snapshot : QueueConfig → Instant → Db → RuntimeSnapshot
snapshot c now db =
    let m : EngineMetrics = metrics c now db in
    record {
      captured_at = now;
      queue_pending = m.queue.pending_count;
      queue_processing = m.queue.processing_count;
      queue_retrying = m.queue.retrying_count;
      queue_failed = m.queue.failed_count;
      queue_dead_letter = m.queue.dead_letter_count;
      published_last_hour = m.published_last_hour;
    }

-- Metrics: a Counter.
unfoldable pub increment : String → ℕ → Dict String ℕ → Dict String ℕ
increment name value counters =
    put name (elim (lookup name counters) [ none ↦ value | some n ↦ n + value ]) counters

pub record OperationalReport : Type 0 where
  pub timestamp : Instant
  pub received : ℕ
  pub accepted : ℕ
  pub rejected : ℕ
  pub expired : ℕ
  pub duplicates : ℕ
  pub queue_depth : ℕ
  pub published : ℕ
  pub failed : ℕ
  pub retrying : ℕ
  pub ai_processed : ℕ
  pub ai_modified : ℕ
  pub sources_total : ℕ
  pub sources_active : ℕ
  pub sources_inactive : ℕ
  pub sources_degraded : ℕ
  pub internet_ok : Bool
  pub publisher_ok : Bool
  pub scheduler_ok : Bool
  pub watchdog_ok : Bool
  pub uptime_seconds : ℕ

-- A row of operational_reports, by its timestamp.
pub record ReportRow (T : Type 0) : Type 0 where
  pub timestamp : Instant
  pub payload : T

module _ {T : Type 0} (dumps : OperationalReport → T) (loads : T → Option OperationalReport) where
  -- `INSERT OR REPLACE`, which puts the row at the end.
  unfoldable pub without : Instant → List (ReportRow T) → List (ReportRow T)
  without t [] = []
  without t (row ∷ rows) = if row.timestamp == t then without t rows else row ∷ without t rows

  unfoldable pub save_report : OperationalReport → List (ReportRow T) → List (ReportRow T)
  unfolding without
  save_report r rows =
      without r.timestamp rows ++ (record { timestamp = r.timestamp; payload = dumps r }) ∷ []

  -- `ORDER BY timestamp DESC`
  unfoldable pub newest_reports : List (ReportRow T) → List (ReportRow T)
  newest_reports rows = sort_by (λ (a b : ReportRow T). leb b.timestamp a.timestamp) rows

  -- The reports of the rows; `none` is an exception of the reader.
  unfoldable pub read_reports : List (ReportRow T) → Option (List OperationalReport)
  read_reports [] = some []
  read_reports (row ∷ rows) = do
    report ← loads row.payload
    more ← read_reports rows
    some (report ∷ more)

  -- latest: `none` where an exception leaves it.
  unfoldable pub latest_report : List (ReportRow T) → Option (Option OperationalReport)
  unfolding newest_reports
  latest_report rows = elim (newest_reports rows) [
    | [] ↦ some none
    | row ∷ more ↦ elim (loads row.payload) [ none ↦ none | some r ↦ some (some r) ]
  ]

  -- hourly, with `LIMIT max(1, limit)`
  unfoldable pub hourly_reports : ℕ → List (ReportRow T) → Option (List OperationalReport)
  unfolding newest_reports read_reports
  hourly_reports limit rows = read_reports (take (max 1 limit) (newest_reports rows))

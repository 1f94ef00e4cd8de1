-- ===== src/Database/Queue.antt =====
-- SQLitePublicationQueue: the table `publication_queue` with primary key `id`. SQLite compares the
-- ISO texts of UTC instants, which are in the order of the instants; a NULL never compares.
use yasin_press_rewrite.Base.{
  ℕ, ◌+◌, String, Bool, ◌&&◌, ◌||◌, List, Option, ◌==◌, string_eq, nat_eq, if◌then◌else◌, ltb, leb,
  any, first, select, sort_by, total, none_or, some_and,
}
use yasin_press_rewrite.Models.{
  Instant, PublicationJob, Status, pending, processing, retrying, failed, dead_letter, succeeded,
  is_processing, is_waiting, is_finished, is_pending,
}
use yasin_press_rewrite.Database.Table.{upsert}

abbrev pub same_job : PublicationJob → PublicationJob → Bool
same_job old job = old.id == job.id

-- The columns that both upserts set.
abbrev pub progress : PublicationJob → PublicationJob → PublicationJob
progress old job = record old {
  status = job.status;
  attempts = job.attempts;
  last_error = job.last_error;
  lease_expires_at = job.lease_expires_at;
  next_attempt_at = job.next_attempt_at;
}

-- `created_at=CASE WHEN ... END`: a finished row that is queued again is a new version.
abbrev pub renewed : PublicationJob → PublicationJob → PublicationJob
renewed old job = record (progress old job) {
  created_at =
      if is_finished old.status && is_pending job.status then job.created_at else old.created_at;
}

-- add_job, which is also save_job
unfoldable pub add_job : PublicationJob → List PublicationJob → List PublicationJob
add_job job rows = upsert same_job renewed job rows

-- The upsert that claim_next, process_cycle and recover_expired_leases write out: it keeps
-- `created_at`.
unfoldable pub put_progress : PublicationJob → List PublicationJob → List PublicationJob
put_progress job rows = upsert same_job progress job rows

unfoldable pub exists : String → List PublicationJob → Bool
exists id rows = any (λ j. j.id == id) rows

unfoldable pub get_job : String → List PublicationJob → Option PublicationJob
get_job id rows = first (λ j. j.id == id) rows

-- `ORDER BY created_at`
unfoldable pub get_all_jobs : List PublicationJob → List PublicationJob
get_all_jobs rows = sort_by (λ a b. leb a.created_at b.created_at) rows

-- The WHERE clause of get_eligible_jobs.
unfoldable pub is_eligible : Instant → PublicationJob → Bool
is_eligible now j =
    is_waiting j.status
    && (none_or j.next_attempt_at (λ t. leb t now) && none_or j.lease_expires_at (λ t. leb t now))

-- `ORDER BY priority DESC,created_at ASC`
abbrev pub urgent_first : PublicationJob → PublicationJob → Bool
urgent_first a b =
    ltb b.priority a.priority || ((a.priority == b.priority) && leb a.created_at b.created_at)

unfoldable pub get_eligible_jobs : Instant → List PublicationJob → List PublicationJob
unfolding is_eligible
get_eligible_jobs now rows = sort_by urgent_first (select (is_eligible now) rows)

-- The WHERE clause of get_stale_leased_jobs.
unfoldable pub is_stale : Instant → PublicationJob → Bool
is_stale now j = is_processing j.status && some_and j.lease_expires_at (λ t. leb t now)

unfoldable pub get_stale_leased_jobs : Instant → List PublicationJob → List PublicationJob
unfolding is_stale
get_stale_leased_jobs now rows = select (is_stale now) rows

pub record Metrics : Type 0 where
  pub queue_depth : ℕ
  pub pending_count : ℕ
  pub processing_count : ℕ
  pub retrying_count : ℕ
  pub dead_letter_count : ℕ
  pub failed_count : ℕ
  pub published : ℕ

-- A row's status as a number, to count rows by.
abbrev pub code : Status → ℕ
code pending = 0
code processing = 1
code retrying = 2
code failed = 3
code dead_letter = 4
code succeeded = 5

-- `SELECT status,COUNT(*) ... GROUP BY status`, read with `counts.get(status, 0)`
unfoldable pub count_status : Status → List PublicationJob → ℕ
count_status s rows = total (λ j. if code j.status == code s then 1 else 0) rows

unfoldable pub get_metrics : List PublicationJob → Metrics
unfolding count_status
get_metrics rows =
    let waiting : ℕ = count_status pending rows in
    let active : ℕ = count_status processing rows in
    let again : ℕ = count_status retrying rows in
    let dead : ℕ = count_status dead_letter rows in
    record {
      queue_depth = waiting + active + again;
      pending_count = waiting;
      processing_count = active;
      retrying_count = again;
      dead_letter_count = dead;
      failed_count = count_status failed rows + dead;
      published = count_status succeeded rows;
    }

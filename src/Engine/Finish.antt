-- ===== src/Engine/Finish.antt =====
-- enqueue, get, mark_success, mark_failure and recover_expired_leases.
use yasin_press_rewrite.Base.{
  ℕ, zero, suc, ◌+◌, ◌*◌, ◌/◌, ◌%◌, ◌^◌, String, true, false, List, [], ◌∷◌, Option, none, some,
  if◌then◌else◌, leb, ltb, length,
}
use yasin_press_rewrite.Models.{
  Instant, Article, PublicationJob, DeliveryRecord, pending, retrying, dead_letter, succeeded,
  news_timestamp, delivery_key, version_key,
}
use yasin_press_rewrite.Database.{Db}
use yasin_press_rewrite.Database.Articles
use yasin_press_rewrite.Database.History
use yasin_press_rewrite.Database.Keys
use yasin_press_rewrite.Database.Queue.{add_job, get_job, put_progress, get_stale_leased_jobs}
use yasin_press_rewrite.Engine.Config.{QueueConfig}

unfoldable pub enqueue : PublicationJob → Db → Db
enqueue job db = record db { queue = add_job job db.queue }

unfoldable pub get : String → Db → Option PublicationJob
get id db = get_job id db.queue

unfoldable pub success_record : Instant → PublicationJob → DeliveryRecord
success_record now job = record {
  article_id = job.article_id;
  destination = job.destination;
  success = true;
  attempts = job.attempts;
  external_id = some job.article_id;
  error = none;
  created_at = now;
}

unfoldable pub failure_record : Instant → String → PublicationJob → DeliveryRecord
failure_record now error job = record {
  article_id = job.article_id;
  destination = job.destination;
  success = false;
  attempts = job.attempts;
  external_id = none;
  error = some error;
  created_at = now;
}

-- The key without a version is marked, and the one with the article's version if there is an article.
unfoldable pub mark_keys :
    (Instant → String) → PublicationJob → List Article → List String → List String
mark_keys iso job articles keys =
    let legacy = Keys.mark (delivery_key job.article_id job.destination) keys in
    elim (Articles.get job.article_id articles) [
      | none ↦ legacy
      | some a ↦
          Keys.mark (version_key iso job.article_id job.destination (news_timestamp a)) legacy
    ]

abbrev pub succeeded_job : PublicationJob → PublicationJob
succeeded_job job = record job { status = succeeded; lease_expires_at = none; last_error = none }

unfoldable pub finish_success : (Instant → String) → Instant → PublicationJob → Db → Db
unfolding mark_keys success_record
finish_success iso now job db = record db {
  queue = add_job (succeeded_job job) db.queue;
  keys = mark_keys iso job db.articles db.keys;
  history = History.add (success_record now job) db.history;
}

-- An unknown job is left alone.
unfoldable pub mark_success : (Instant → String) → String → Instant → Db → Db
unfolding finish_success
mark_success iso id now db = elim (get_job id db.queue) [
  | none ↦ db
  | some job ↦ finish_success iso now job db
]

-- `base * 2 ** (attempts - 1)`; at no attempts the half, rounded to even as `timedelta` does.
unfoldable pub backoff : ℕ → ℕ → ℕ
backoff base zero = base / 2 + (if leb (base % 2) 0 then 0 else base / 2 % 2)
backoff base (suc n) = base * 2 ^ n

unfoldable pub failed_job : QueueConfig → Instant → String → PublicationJob → PublicationJob
unfolding backoff
failed_job c now error job =
    if leb c.max_attempts job.attempts
    then record job { last_error = some error; status = dead_letter; lease_expires_at = none }
    else record job {
      last_error = some error;
      status = retrying;
      next_attempt_at = some (now + backoff c.retry_base job.attempts);
      lease_expires_at = none;
    }

unfoldable pub finish_failure : QueueConfig → Instant → String → PublicationJob → Db → Db
unfolding failed_job failure_record
finish_failure c now error job db = record db {
  queue = add_job (failed_job c now error job) db.queue;
  history = History.add (failure_record now error job) db.history;
}

-- `none` is the ValueError for an unknown job.
unfoldable pub mark_failure :
    QueueConfig → String → String → Instant → Db → Option (PublicationJob × Db)
unfolding finish_failure
mark_failure c id error now db = elim (get_job id db.queue) [
  | none ↦ none
  | some job ↦ some (failed_job c now error job, finish_failure c now error job db)
]

-- The assignments to a stale job.
unfoldable pub recovered : PublicationJob → PublicationJob
recovered job = record job {
  status = if ltb 0 job.attempts then retrying else pending;
  lease_expires_at = none;
  last_error = some "Lease expired (worker crash recovery)";
}

unfoldable pub recover_each : List PublicationJob → List PublicationJob → List PublicationJob
unfolding recovered
recover_each [] rows = rows
recover_each (job ∷ stale) rows = recover_each stale (put_progress (recovered job) rows)

-- The number of recovered jobs, and the database after.
unfoldable pub recover_expired_leases : Instant → Db → ℕ × Db
unfolding recover_each
recover_expired_leases now db =
    let stale = get_stale_leased_jobs now db.queue in
    (length stale, record db { queue = recover_each stale db.queue })

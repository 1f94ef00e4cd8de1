-- ===== src/Engine/Run.antt =====
-- run_once: claim a job, deliver it, and record how that went. The store is the article table.
use Prim.Native.String.{◌++◌}
use yasin_press_rewrite.Base.{
  String, Bool, true, false, ◌&&◌, ◌||◌, Option, none, some, if◌then◌else◌, leb, none_or, some_and,
  ◌==◌, string_eq,
}
use yasin_press_rewrite.Models.{
  Instant, Article, PublicationJob, PublishResult, returns, raises, Publisher, dead_letter,
  news_timestamp, delivery_key, version_key,
}
use yasin_press_rewrite.Database.{Db}
use yasin_press_rewrite.Database.Articles
use yasin_press_rewrite.Database.Keys
use yasin_press_rewrite.Database.Queue.{add_job}
use yasin_press_rewrite.Engine.Config.{QueueConfig}
use yasin_press_rewrite.Engine.Claim.{claim_next}
use yasin_press_rewrite.Engine.Finish.{mark_success, mark_failure}

abbrev pub failure : String → String → PublishResult
failure destination error = record {
  success = false;
  destination = destination;
  external_id = none;
  error = some error;
  skipped = false;
}

abbrev pub skip : String → String → PublishResult
skip destination id = record {
  success = true;
  destination = destination;
  external_id = some id;
  error = none;
  skipped = true;
}

-- `job.status = "dead_letter"`, with the reason
abbrev pub buried : String → PublicationJob → PublicationJob
buried reason job = record job {
  status = dead_letter;
  lease_expires_at = none;
  last_error = some reason;
}

-- The job is buried and saved.
unfoldable pub bury : String → PublicationJob → Db → Db
bury reason job db = record db { queue = add_job (buried reason job) db.queue }

-- Delivered before, in this version or, by the key without a version, not before its news.
unfoldable pub already_delivered : (Instant → String) → Article → String → Db → Bool
already_delivered iso a destination db =
    Keys.seen (version_key iso a.id destination (news_timestamp a)) db.keys
    || (some_and a.published_to_channel_at (λ p. none_or (news_timestamp a) (λ n. leb n p))
        && Keys.seen (delivery_key a.id destination) db.keys)

-- The `try` block: an exception is a failed result.
unfoldable pub attempt : Publisher → Article → PublishResult
attempt p a = elim (p.publish a) [ returns r ↦ r | raises error ↦ failure p.name error ]

unfoldable pub deliver : (Instant → String) → Publisher → Article → Db → PublishResult
unfolding already_delivered attempt
deliver iso p a db = if already_delivered iso a p.name db then skip p.name a.id else attempt p a

-- How run_once ends: None, a result, or an exception that leaves it: the IntegrityError of
-- `store.save`, or the ValueError of mark_failure.
pub data Ran : Type 0 where
  idle : Ran
  done : PublishResult → Ran
  integrity_error job_not_found : Ran

-- `result.error or "Unknown publish error"`
unfoldable pub error_text : Option String → String
error_text none = "Unknown publish error"
error_text (some e) = if e == "" then "Unknown publish error" else e

-- `store.save(replace(article, published_to_channel_at=current))`
unfoldable pub save_published : Instant → Article → PublishResult → Db → Ran × Db
save_published now a result db =
    elim (Articles.save (record a { published_to_channel_at = some now }) db.articles) [
      | none ↦ (integrity_error, db)
      | some rows ↦ (done result, record db { articles = rows })
    ]

-- The failing branch: the job is marked, or the ValueError leaves run_once.
unfoldable pub report_failure :
    QueueConfig → Instant → PublicationJob → PublishResult → Db → Ran × Db
report_failure c now job result db = elim (mark_failure c job.id (error_text result.error) now db) [
  | none ↦ (job_not_found, db)
  | some (_, after) ↦ (done result, after)
]

unfoldable pub settle :
    (Instant → String)
    → QueueConfig
    → Instant
    → PublicationJob
    → Article
    → PublishResult
    → Db
    → Ran × Db
unfolding save_published report_failure
settle iso c now job a result db =
    if result.success
    then save_published now a result (mark_success iso job.id now db)
    else report_failure c now job result db

unfoldable pub run_job :
    (Instant → String)
    → QueueConfig
    → (String → Option Publisher)
    → Instant
    → PublicationJob
    → Db
    → Ran × Db
unfolding bury deliver settle
run_job iso c publishers now job db = elim (Articles.get job.article_id db.articles) [
  | none ↦ (done (failure job.destination "Article not found"), bury "Article not found" job db)
  | some a ↦ elim (publishers job.destination) [
    | none ↦ (
      done (failure job.destination "Publisher not found"),
      bury ("Publisher " ++ (job.destination ++ " not found")) job db,
    )
    | some p ↦ settle iso c now job a (deliver iso p a db) db
  ]
]

-- `publishers` is the dictionary from names to publishers.
unfoldable pub run_once :
    (Instant → String) → QueueConfig → (String → Option Publisher) → Instant → Db → Ran × Db
unfolding run_job
run_once iso c publishers now db =
    let (claim, after) = claim_next c now db in
    elim claim [ none ↦ (idle, after) | some job ↦ run_job iso c publishers now job after ]

-- ===== src/Engine/Consumed.antt =====
-- The first half of claim_next, and metrics: which articles use up the hourly limit at `now`.
use yasin_press_rewrite.Base.{
  ℕ, ◌+◌, ◌-◌, String, Bool, ◌&&◌, List, [], ◌∷◌, none, some, string_eq, if◌then◌else◌, leb, map,
  select, none_or, contains, add, union, to_set, length, Dict, lookup, put,
}
use yasin_press_rewrite.Models.{
  Instant, one_hour, PublicationJob, DeliveryRecord, is_processing, job_id,
}
use yasin_press_rewrite.Database.{Db}
use yasin_press_rewrite.Database.Articles
use yasin_press_rewrite.Database.Queue.{get_job, get_all_jobs, get_metrics, Metrics}
use yasin_press_rewrite.Engine.Config.{QueueConfig}

-- `record.success and record.created_at >= cutoff`
unfoldable pub is_recent : Instant → DeliveryRecord → Bool
is_recent now r = r.success && leb (now - one_hour) r.created_at

unfoldable pub recent_successes : Instant → Db → List DeliveryRecord
unfolding is_recent
recent_successes now db = select (is_recent now) db.history

-- A job in processing whose lease has not run out.
unfoldable pub is_active : Instant → PublicationJob → Bool
is_active now j = is_processing j.status && none_or j.lease_expires_at (λ t. leb now t)

unfoldable pub processing_jobs : Instant → Db → List PublicationJob
unfolding is_active
processing_jobs now db = select (is_active now) (get_all_jobs db.queue)

-- recent_success_article_ids
unfoldable pub recent_ids : Instant → Db → List String
recent_ids now db = to_set (map (λ r. r.article_id) (recent_successes now db))

-- processing_article_ids
unfoldable pub active_ids : Instant → Db → List String
active_ids now db = to_set (map (λ j. j.article_id) (processing_jobs now db))

-- consumed_article_ids
unfoldable pub consumed : Instant → Db → List String
consumed now db = union (recent_ids now db) (active_ids now db)

-- `max(0, self.config.global_limit - len(consumed_article_ids))`
unfoldable pub available_slots : QueueConfig → Instant → Db → ℕ
available_slots c now db = c.global_limit - length (consumed now db)

-- source_counts, a defaultdict(int), and counted_article_ids.
pub record Counts : Type 0 where
  pub by_source : Dict String ℕ
  pub counted : List String

abbrev pub no_counts : Counts
no_counts = record { by_source = []; counted = [] }

-- `d[source]` of a defaultdict(int)
unfoldable pub count_of : String → Dict String ℕ → ℕ
count_of source d = elim (lookup source d) [ none ↦ 0 | some n ↦ n ]

unfoldable pub tally : String → String → Counts → Counts
tally source article c = record {
  by_source = put source (count_of source c.by_source + 1) c.by_source;
  counted = add article c.counted;
}

-- The body of the loop over the recent successes: an article counts once, for the source of its
-- row, or else of its job; with neither it is not counted.
unfoldable pub count_record : Db → DeliveryRecord → Counts → Counts
unfolding tally
count_record db r c =
    if contains r.article_id c.counted then c else elim (Articles.get r.article_id db.articles) [
      | some a ↦ tally a.source r.article_id c
      | none ↦ elim (get_job (job_id r.article_id r.destination) db.queue) [
        | some j ↦ tally j.source r.article_id c
        | none ↦ c
      ]
    ]

unfoldable pub count_records : Db → List DeliveryRecord → Counts → Counts
unfolding count_record
count_records db [] c = c
count_records db (r ∷ rs) c = count_records db rs (count_record db r c)

unfoldable pub count_job : PublicationJob → Counts → Counts
unfolding tally
count_job j c = if contains j.article_id c.counted then c else tally j.source j.article_id c

unfoldable pub count_jobs : List PublicationJob → Counts → Counts
unfolding count_job
count_jobs [] c = c
count_jobs (j ∷ js) c = count_jobs js (count_job j c)

unfoldable pub source_counts : Instant → Db → Dict String ℕ
source_counts now db =
    (count_jobs (processing_jobs now db)
      (count_records db (recent_successes now db) no_counts)).by_source

pub record EngineMetrics : Type 0 where
  pub queue : Metrics
  pub published_last_hour : ℕ
  pub remaining_global_capacity : ℕ

unfoldable pub metrics : QueueConfig → Instant → Db → EngineMetrics
metrics c now db = record {
  queue = get_metrics db.queue;
  published_last_hour = length (recent_ids now db);
  remaining_global_capacity = available_slots c now db;
}

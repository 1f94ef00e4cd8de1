-- ===== src/Processor/Cycle.antt =====
-- process_cycle, with the order of Python's strings as the parameter `at_most`.
use Prim.Native.String.{◌++◌}
use yasin_press_rewrite.Base.{
  ◌+◌, String, Bool, true, false, ◌&&◌, ◌||◌, not, List, [], ◌∷◌, Option, none, some, leb, ltb,
  contains, first, select, sort_by, union, ◌==◌, string_eq, nat_eq, if◌then◌else◌, none_or,
  some_and,
}
use yasin_press_rewrite.Models.{
  Instant, Article, PublicationJob, DeliveryRecord, PublishResult, Publisher, dead_letter, retrying,
  news_timestamp, delivery_key, version_key,
}
use yasin_press_rewrite.Database.{Db}
use yasin_press_rewrite.Database.Articles
use yasin_press_rewrite.Database.History
use yasin_press_rewrite.Database.Keys
use yasin_press_rewrite.Database.Queue.{add_job, put_progress, get_eligible_jobs}
use yasin_press_rewrite.Engine.Config.{QueueConfig}
use yasin_press_rewrite.Engine.Consumed.{consumed, recent_successes, available_slots}
use yasin_press_rewrite.Engine.Claim.{delivery_of, leased}
use yasin_press_rewrite.Engine.Finish.{backoff, succeeded_job, recover_expired_leases}
use yasin_press_rewrite.Engine.Run.{attempt, skip, bury, error_text}
use yasin_press_rewrite.Processor.Select.{cycle_counts, select_new_articles}

-- A recent delivery of the job's article to its destination, with no news after it.
unfoldable pub is_current : Db → List DeliveryRecord → PublicationJob → Bool
is_current db recent j = some_and (delivery_of recent j) (λ r.
    elim (Articles.get j.article_id db.articles) [
      | none ↦ true
      | some a ↦ none_or (news_timestamp a) (λ t. leb t r.created_at)
    ])

-- `key=lambda job: (-job.priority, job.created_at, job.source, job.destination)`
unfoldable pub in_turn : (String → String → Bool) → PublicationJob → PublicationJob → Bool
in_turn at_most a b =
    ltb b.priority a.priority
    || ((a.priority == b.priority)
        && (ltb a.created_at b.created_at
            || ((a.created_at == b.created_at)
                && ((not (a.source == b.source) && at_most a.source b.source)
                    || ((a.source == b.source) && at_most a.destination b.destination)))))

-- selected_jobs, before they are leased.
unfoldable pub select_jobs :
    (String → String → Bool) → QueueConfig → Instant → Db → List PublicationJob
unfolding is_current in_turn
select_jobs at_most c now db =
    let eligible : List PublicationJob = get_eligible_jobs now db.queue in
    let chosen : List String =
      select_new_articles c.source_limit eligible (consumed now db) (cycle_counts now db)
        (available_slots c now db) in
    sort_by (in_turn at_most) (
      select
        (λ j.
          contains j.article_id (union (consumed now db) chosen)
          && not (is_current db (recent_successes now db) j))
        eligible)

unfoldable pub lease_each :
    QueueConfig → Instant → List PublicationJob → List PublicationJob → List PublicationJob
lease_each c now [] rows = rows
lease_each c now (j ∷ jobs) rows = lease_each c now jobs (put_progress (leased c now j) rows)

-- previous_delivery: the first success of the whole history.
unfoldable pub previous_delivery : Article → String → List DeliveryRecord → Option DeliveryRecord
previous_delivery a destination history =
    first (λ r. (r.article_id == a.id) && ((r.destination == destination) && r.success)) history

unfoldable pub is_done : (Instant → String) → Article → String → Db → Bool
unfolding previous_delivery
is_done iso a destination db =
    Keys.seen (version_key iso a.id destination (news_timestamp a)) db.keys
    || (Keys.seen (delivery_key a.id destination) db.keys
        && none_or (previous_delivery a destination db.history)
            (λ r. none_or (news_timestamp a) (λ t. leb t r.created_at)))

unfoldable pub cycle_deliver : (Instant → String) → Publisher → Article → Db → PublishResult
unfolding is_done
cycle_deliver iso p a db = if is_done iso a p.name db then skip p.name a.id else attempt p a

unfoldable pub cycle_record :
    Instant → PublicationJob → Article → Publisher → PublishResult → DeliveryRecord
cycle_record now job a p r = record {
  article_id = a.id;
  destination = p.name;
  success = r.success;
  attempts = job.attempts;
  external_id = r.external_id;
  error = r.error;
  created_at = now;
}

-- The job after a failure: its own bound on attempts holds.
unfoldable pub cycle_failed :
    QueueConfig → Instant → PublishResult → PublicationJob → PublicationJob
cycle_failed c now r job =
    if leb job.max_attempts job.attempts
    then record job {
      last_error = some (error_text r.error);
      status = dead_letter;
      lease_expires_at = none;
    }
    else record job {
      last_error = some (error_text r.error);
      status = retrying;
      next_attempt_at = some (now + backoff c.retry_base job.attempts);
      lease_expires_at = none;
    }

-- After a success: `none` is the IntegrityError of saving the article, with the keys marked already.
unfoldable pub cycle_success :
    (Instant → String) → Instant → PublicationJob → Article → String → Db → Bool × Db
cycle_success iso now job a destination db =
    let keys : List String =
      Keys.mark (version_key iso a.id destination (news_timestamp a))
        (Keys.mark (delivery_key a.id destination) db.keys) in
    elim (Articles.save (record a { published_to_channel_at = some now }) db.articles) [
      | none ↦ (false, record db { keys = keys })
      | some rows ↦ (
        true,
        record db { keys = keys; articles = rows; queue = add_job (succeeded_job job) db.queue },
      )
    ]

-- What the loop has done with a job: no result, a result, or an exception that leaves process_cycle.
pub data Handled : Type 0 where
  buried_job raised_error : Handled
  sent : PublishResult → Handled

unfoldable pub settle_job :
    (Instant → String)
    → QueueConfig
    → Instant
    → PublicationJob
    → Article
    → Publisher
    → PublishResult
    → Db
    → Handled × Db
unfolding cycle_success cycle_failed
settle_job iso c now job a p r db =
    let recorded : Db = record db {
      history = History.add (cycle_record now job a p r) db.history;
    } in
    if r.success
    then (let (saved, after) = cycle_success iso now job a p.name recorded in
        (if saved then sent r else raised_error, after))
    else (sent r, record recorded { queue = add_job (cycle_failed c now r job) db.queue })

unfoldable pub handle_job :
    (Instant → String)
    → QueueConfig
    → (String → Option Publisher)
    → Instant
    → PublicationJob
    → Db
    → Handled × Db
unfolding settle_job cycle_deliver
handle_job iso c publishers now job db = elim (Articles.get job.article_id db.articles) [
  | none ↦ (buried_job, bury "Article not found" job db)
  | some a ↦ elim (publishers job.destination) [
    | none ↦ (buried_job, bury ("Publisher " ++ (job.destination ++ " not found")) job db)
    | some p ↦ settle_job iso c now job a p (cycle_deliver iso p a db) db
  ]
]

-- The results of a cycle, and whether an exception left it.
pub record Cycle : Type 0 where
  pub results : List PublishResult
  pub raised : Bool
  pub db : Db

unfoldable pub handle_jobs :
    (Instant → String)
    → QueueConfig
    → (String → Option Publisher)
    → Instant
    → List PublicationJob
    → Db
    → Cycle
unfolding handle_job
handle_jobs iso c publishers now [] db = record { results = []; raised = false; db = db }
handle_jobs iso c publishers now (job ∷ jobs) db =
    let (handled, after) = handle_job iso c publishers now job db in
    let rest : Cycle = handle_jobs iso c publishers now jobs after in
    elim handled [
      | raised_error ↦ record { results = []; raised = true; db = after }
      | buried_job ↦ rest
      | sent r ↦ record rest { results = r ∷ rest.results }
    ]

unfoldable pub lease_all : QueueConfig → Instant → List PublicationJob → List PublicationJob
lease_all c now [] = []
lease_all c now (j ∷ jobs) = leased c now j ∷ lease_all c now jobs

unfoldable pub process_cycle :
    (Instant → String)
    → (String → String → Bool)
    → QueueConfig
    → (String → Option Publisher)
    → Instant
    → Db
    → Cycle
unfolding select_jobs lease_each lease_all handle_jobs
process_cycle iso at_most c publishers now db =
    let start : Db = (recover_expired_leases now db).1 in
    let jobs : List PublicationJob = select_jobs at_most c now start in
    handle_jobs iso c publishers now (lease_all c now jobs)
      (record start { queue = lease_each c now jobs start.queue })

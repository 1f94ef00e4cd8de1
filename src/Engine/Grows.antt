-- ===== src/Engine/Grows.antt =====
-- How delivering a claimed job changes the usage of the hourly limit.
use yasin_press_rewrite.Base.{
  ◌≡◌, refl, ◌⊎◌, inl, inr, String, Bool, true, false, Option, some, arith, string_eq, Option-cases,
  if◌then◌else◌,
}
use yasin_press_rewrite.Models.{
  Instant, Article, PublicationJob, PublishResult, Publisher, is_processing,
}
use yasin_press_rewrite.Database.{Db}
use yasin_press_rewrite.Database.Articles
use yasin_press_rewrite.Database.Queue.{get_job}
use yasin_press_rewrite.Engine.Config.{QueueConfig}
use yasin_press_rewrite.Engine.Finish.{
  finish_success, finish_failure, failure_record, mark_success, mark_failure, failed_job,
  success_record, succeeded_job,
}
use yasin_press_rewrite.Engine.Run.{
  buried, bury, deliver, save_published, report_failure, settle, run_job, error_text,
}
use yasin_press_rewrite.Engine.Usage.{Uses}
use yasin_press_rewrite.Engine.Frames.{add_job-Uses, add-Uses, add_failure-Uses}

-- The usage of `db'` is that of `db`, and `b` at most.
abbrev pub Grows : Instant → Db → String → Db → Type 0
Grows now db b db' = (a : String) → Uses now db' a → (a ≡ b) ⊎ Uses now db a

finish_success-Grows :
    (iso : Instant → String) (now : Instant) (job : PublicationJob) (db : Db)
    → Grows now db job.article_id (finish_success iso now job db)
unfolding finish_success is_processing success_record
finish_success-Grows iso now job db a u =
    elim (add-Uses now (record db { queue = _ }) (success_record now job) a u) [
      | inl e ↦ inl e
      | inr v ↦ inr (add_job-Uses now db (succeeded_job job) refl a v)
    ]

mark_success-Grows :
    (iso : Instant → String) (id : String) (now : Instant) (db : Db) (job : PublicationJob)
    → get_job id db.queue ≡ some job
    → Grows now db job.article_id (mark_success iso id now db)
unfolding mark_success
mark_success-Grows iso id now db job e = rw (e, mark_success) (finish_success-Grows iso now job db)

failed_job_idle :
    (c : QueueConfig) (now : Instant) (error : String) (job : PublicationJob)
    → is_processing (failed_job c now error job).status ≡ false
unfolding failed_job is_processing
failed_job_idle c now error job = ground arith

-- A failure frees the slot.
finish_failure-Grows :
    (c : QueueConfig) (now : Instant) (error b : String) (job : PublicationJob) (db : Db)
    → Grows now db b (finish_failure c now error job db)
unfolding finish_failure failure_record
finish_failure-Grows c now error b job db a u = inr (
    add_job-Uses now db (failed_job c now error job) (failed_job_idle c now error job) a
      (add_failure-Uses now (record db { queue = _ }) (failure_record now error job) refl a u))

report_failure-Grows :
    (c : QueueConfig) (now : Instant) (job : PublicationJob) (r : PublishResult) (b : String)
    (db : Db)
    → Grows now db b (report_failure c now job r db).1
unfolding report_failure mark_failure
report_failure-Grows c now job r b db = elim (Option-cases (get_job job.id db.queue)) [
  | inl e ↦ rw (e, report_failure, mark_failure) (λ a u. inr u)
  | inr (row, e) ↦
      rw (e, report_failure, mark_failure)
        (finish_failure-Grows c now (error_text r.error) b row db)
]

save_published-Grows :
    (now : Instant) (a : Article) (r : PublishResult) (b : String) (db after : Db)
    → Grows now db b after
    → Grows now db b (save_published now a r after).1
unfolding save_published
save_published-Grows now a r b db after h =
    elim (Option-cases
      (Articles.save (record a { published_to_channel_at = some now }) after.articles)) [
        | inl e ↦ rw (e, save_published) h
        | inr (rows, e) ↦ rw (e, save_published) h
      ]

pub bury-Uses :
    (now : Instant) (reason : String) (job : PublicationJob) (db : Db) (a : String)
    → Uses now (bury reason job db) a
    → Uses now db a
unfolding bury is_processing
bury-Uses now reason job db a u = add_job-Uses now db (buried reason job) refl a u

bury-Grows :
    (now : Instant) (reason b : String) (job : PublicationJob) (db : Db)
    → Grows now db b (bury reason job db)
bury-Grows now reason b job db a u = inr (bury-Uses now reason job db a u)

module _ (iso : Instant → String) (c : QueueConfig) (now : Instant) (db : Db) (job : PublicationJob)
    (row : PublicationJob) (held : get_job job.id db.queue ≡ some row) where
  pub settle-Grows :
      (a : Article) (r : PublishResult)
      → Grows now db row.article_id (settle iso c now job a r db).1
  unfolding settle
  settle-Grows a r = by_success r.success
    where
      by_success :
          (b : Bool)
          → Grows now db row.article_id
              (if b
                then save_published now a r (mark_success iso job.id now db)
                else report_failure c now job r db).1
      by_success true =
          save_published-Grows now a r row.article_id db (mark_success iso job.id now db)
            (mark_success-Grows iso job.id now db row held)
      by_success false = report_failure-Grows c now job r row.article_id db

  pub run_job-Grows :
      (publishers : String → Option Publisher)
      → Grows now db row.article_id (run_job iso c publishers now job db).1
  unfolding run_job
  run_job-Grows publishers = elim (Option-cases (Articles.get job.article_id db.articles)) [
    | inl e ↦ rw (e, run_job) (bury-Grows now "Article not found" row.article_id job db)
    | inr (a, e) ↦ elim (Option-cases (publishers job.destination)) [
      | inl f ↦ rw (e, f, run_job) (bury-Grows now _ row.article_id job db)
      | inr (p, f) ↦ rw (e, f, run_job) (settle-Grows a (deliver iso p a db))
    ]
  ]

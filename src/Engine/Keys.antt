-- ===== src/Engine/Keys.antt =====
-- The ids of the queue stay distinct under every write of the engine.
use yasin_press_rewrite.Base.{
  String, Bool, true, false, List, [], ◌∷◌, Option, some, Option-cases, inl, inr, if◌then◌else◌,
}
use yasin_press_rewrite.Models.{Instant, Article, PublicationJob, PublishResult, Publisher}
use yasin_press_rewrite.Database.{Db}
use yasin_press_rewrite.Database.Articles
use yasin_press_rewrite.Database.Queue.{get_job, put_progress}
use yasin_press_rewrite.Database.Keyed.{IsKeyed, add_job-IsKeyed, put_progress-IsKeyed}
use yasin_press_rewrite.Engine.Config.{QueueConfig}
use yasin_press_rewrite.Engine.Claim.{claim_next, select_job, leased}
use yasin_press_rewrite.Engine.Finish.{
  finish_success, mark_success, finish_failure, mark_failure, recovered, recover_each,
}
use yasin_press_rewrite.Engine.Run.{
  bury, deliver, save_published, report_failure, settle, run_job, run_once,
}
use yasin_press_rewrite.Engine.Capacity.{
  claim_next-none, claim_next-some, run_once-none, run_once-some,
}

pub recover_each-IsKeyed :
    (stale rows : List PublicationJob) → IsKeyed rows → IsKeyed (recover_each stale rows)
unfolding recover_each
recover_each-IsKeyed [] rows h = h
recover_each-IsKeyed (j ∷ stale) rows h =
    recover_each-IsKeyed stale (put_progress (recovered j) rows)
      (put_progress-IsKeyed (recovered j) rows h)

module _ (iso : Instant → String) (c : QueueConfig) where
  mark_success-IsKeyed :
      (id : String) (now : Instant) (db : Db)
      → IsKeyed db.queue
      → IsKeyed (mark_success iso id now db).queue
  unfolding mark_success finish_success
  mark_success-IsKeyed id now db h = elim (Option-cases (get_job id db.queue)) [
    | inl e ↦ rw (e, mark_success) h
    | inr (job, e) ↦ rw (e, mark_success) (add_job-IsKeyed _ db.queue h)
  ]

  save_published-IsKeyed :
      (now : Instant) (a : Article) (r : PublishResult) (db : Db)
      → IsKeyed db.queue
      → IsKeyed (save_published now a r db).1.queue
  unfolding save_published
  save_published-IsKeyed now a r db h =
      elim (Option-cases
        (Articles.save (record a { published_to_channel_at = some now }) db.articles)) [
          | inl e ↦ rw (e, save_published) h
          | inr (rows, e) ↦ rw (e, save_published) h
        ]

  report_failure-IsKeyed :
      (now : Instant) (job : PublicationJob) (r : PublishResult) (db : Db)
      → IsKeyed db.queue
      → IsKeyed (report_failure c now job r db).1.queue
  unfolding report_failure mark_failure finish_failure
  report_failure-IsKeyed now job r db h = elim (Option-cases (get_job job.id db.queue)) [
    | inl e ↦ rw (e, report_failure, mark_failure) h
    | inr (row, e) ↦ rw (e, report_failure, mark_failure) (add_job-IsKeyed _ db.queue h)
  ]

  pub settle-IsKeyed :
      (now : Instant) (job : PublicationJob) (a : Article) (r : PublishResult) (db : Db)
      → IsKeyed db.queue
      → IsKeyed (settle iso c now job a r db).1.queue
  unfolding settle
  settle-IsKeyed now job a r db h = by_success r.success
    where
      by_success :
          (b : Bool)
          → IsKeyed
              (if b
                then save_published now a r (mark_success iso job.id now db)
                else report_failure c now job r db).1.queue
      by_success true =
          save_published-IsKeyed now a r (mark_success iso job.id now db)
            (mark_success-IsKeyed job.id now db h)
      by_success false = report_failure-IsKeyed now job r db h

  module _ (publishers : String → Option Publisher) where
    run_job-IsKeyed :
        (now : Instant) (job : PublicationJob) (db : Db)
        → IsKeyed db.queue
        → IsKeyed (run_job iso c publishers now job db).1.queue
    unfolding run_job bury
    run_job-IsKeyed now job db h = elim (Option-cases (Articles.get job.article_id db.articles)) [
      | inl e ↦ rw (e, run_job) (add_job-IsKeyed _ db.queue h)
      | inr (a, e) ↦ elim (Option-cases (publishers job.destination)) [
        | inl f ↦ rw (e, f, run_job) (add_job-IsKeyed _ db.queue h)
        | inr (p, f) ↦ rw (e, f, run_job) (settle-IsKeyed now job a (deliver iso p a db) db h)
      ]
    ]

    pub run_once-IsKeyed :
        (now : Instant) (db : Db)
        → IsKeyed db.queue
        → IsKeyed (run_once iso c publishers now db).1.queue
    run_once-IsKeyed now db h = elim (Option-cases (select_job c now db)) [
      | inl e ↦ rw (run_once-none iso c publishers now db e) h
      | inr (j, e) ↦ rw (run_once-some iso c publishers now db j e) (
          run_job-IsKeyed now (leased c now j) _ (put_progress-IsKeyed (leased c now j) db.queue h))
    ]

pub claim_next-IsKeyed :
    (c : QueueConfig) (now : Instant) (db : Db)
    → IsKeyed db.queue
    → IsKeyed (claim_next c now db).1.queue
claim_next-IsKeyed c now db h = elim (Option-cases (select_job c now db)) [
  | inl e ↦ rw (claim_next-none c now db e) h
  | inr (j, e) ↦
      rw (claim_next-some c now db j e) (put_progress-IsKeyed (leased c now j) db.queue h)
]

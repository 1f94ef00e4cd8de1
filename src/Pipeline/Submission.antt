-- ===== src/Pipeline/Submission.antt =====
-- What the processing service does to the queue that the engine works on.
use yasin_press_rewrite.Base.{
  ℕ, ◌+◌, ◌≤◌, ◌≡◌, refl, String, Bool, true, false, List, [], ◌∷◌, length, if◌then◌else◌,
}
use yasin_press_rewrite.Models.{Instant, Article, PublicationJob, is_processing, job_id}
use yasin_press_rewrite.Database.{Db}
use yasin_press_rewrite.Database.Queue.{add_job, get_job}
use yasin_press_rewrite.Engine.Config.{QueueConfig}
use yasin_press_rewrite.Engine.Consumed.{consumed}
use yasin_press_rewrite.Engine.Finish.{enqueue}
use yasin_press_rewrite.Engine.Reach.{World, Reach, here, next, submit, IsWithin, hourly_limit}
use yasin_press_rewrite.Pipeline.Queueing.{
  Signals, new_job, needs_queue, queue_article, queue_articles, undelivered, process,
}

module _ (iso : Instant → String) (c : QueueConfig) (signals : Signals) (now : Instant)
    (max_attempts : ℕ) where
  new_job_idle :
      (a : Article) (name : String)
      → is_processing (new_job signals now max_attempts a name).status ≡ false
  unfolding new_job is_processing
  new_job_idle a name = refl

  submitted :
      {s : World} (w : World) (job : PublicationJob)
      → is_processing job.status ≡ false
      → Reach iso c s w
      → Reach iso c s (record w { db = record w.db { queue = add_job job w.db.queue } })
  submitted w job idle r = unfold enqueue in next r (submit w job idle)

  queue_article-Reach :
      {s : World} (a : Article) (names : List String) (w : World)
      → Reach iso c s w
      → Reach iso c s (record w {
        db = record w.db { queue = (queue_article signals now max_attempts a names w.db.queue).1 };
      })
  unfolding queue_article
  queue_article-Reach a [] w r = r
  queue_article-Reach {s} a (name ∷ names) w r =
      by_need (needs_queue a (get_job (job_id a.id name) w.db.queue))
        (queue_article-Reach a names _
          (submitted w (new_job signals now max_attempts a name) (new_job_idle a name) r))
        (queue_article-Reach a names w r)
    where
      by_need :
          (b : Bool)
          → Reach iso c s (record w {
            db = record w.db {
              queue =
                  (queue_article signals now max_attempts a names
                    (add_job (new_job signals now max_attempts a name) w.db.queue)).1;
            };
          })
          → Reach iso c s (record w {
            db = record w.db {
              queue = (queue_article signals now max_attempts a names w.db.queue).1;
            };
          })
          → Reach iso c s (record w {
            db = record w.db {
              queue =
                  (if b
                    then (
                      (queue_article signals now max_attempts a names
                            (add_job (new_job signals now max_attempts a name) w.db.queue)).0
                          + 1,
                      (queue_article signals now max_attempts a names
                          (add_job (new_job signals now max_attempts a name) w.db.queue)).1,
                    )
                    else queue_article signals now max_attempts a names w.db.queue).1;
            };
          })
      by_need true x y = x
      by_need false x y = y

  pub queue_articles-Reach :
      {s : World} (names : List String) (articles : List Article) (w : World)
      → Reach iso c s w
      → Reach iso c s (record w {
        db = record w.db {
          queue = (queue_articles signals now max_attempts names articles w.db.queue).1;
        };
      })
  unfolding queue_articles
  queue_articles-Reach names [] w r = r
  queue_articles-Reach names (a ∷ articles) w r =
      queue_articles-Reach names articles _ (queue_article-Reach a names w r)

  -- Where the queue's ids are distinct and the articles in use are at most global_limit many, they
  -- are so after the processing service has queued jobs, with whatever articles, publishers and AI
  -- provider.
  pub process-within :
      (enrich : Article → Article) (max_age : ℕ) (names : List String) (articles : List Article)
      (db : Db)
      → IsWithin c (record { now = now; db = db })
      → length (
          consumed now (record db {
            queue =
                (process signals enrich now max_age max_attempts names db.keys articles db.queue).1;
          }))
        ≤ c.global_limit
  unfolding process
  process-within enrich max_age names articles db h =
      (hourly_limit iso c (record { now = now; db = db }) _ h
        (queue_articles-Reach names (undelivered enrich now max_age names db.keys articles)
          (record { now = now; db = db }) here)).1

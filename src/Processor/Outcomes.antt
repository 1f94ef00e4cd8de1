-- ===== src/Processor/Outcomes.antt =====
-- The processor's outcomes beside the engine's.
use yasin_press_rewrite.Base.{
  ◌≡◌, refl, ap, ◌∙◌, ℕ, suc, ◌+◌, ◌*◌, ◌^◌, ◌&&◌, ltb, leb, String, true, some, arith, List,
  contains-add, ==_refl, string_eq, Option-cases, inl, inr,
}
use yasin_press_rewrite.Models.{
  Instant, Article, PublicationJob, PublishResult, Publisher, news_timestamp, version_key,
}
use yasin_press_rewrite.Database.{Db}
use yasin_press_rewrite.Database.Articles
use yasin_press_rewrite.Database.Keys
use yasin_press_rewrite.Engine.Config.{QueueConfig}
use yasin_press_rewrite.Database.Queue.{is_eligible}
use yasin_press_rewrite.Engine.Finish.{failed_job}
use yasin_press_rewrite.Engine.Outcomes.{failed_job-is_eligible}
use yasin_press_rewrite.Engine.Run.{error_text, skip}
use yasin_press_rewrite.Processor.Cycle.{cycle_failed, cycle_success, is_done, cycle_deliver}

cycle_failed-failed_job :
    (c : QueueConfig) (now : Instant) (r : PublishResult) (job : PublicationJob)
    → cycle_failed c now r job
      ≡ failed_job (record c { max_attempts = job.max_attempts }) now (error_text r.error) job
unfolding cycle_failed failed_job
cycle_failed-failed_job c now r job = refl

-- A job with at least one attempt that a cycle has recorded as failed is eligible again exactly
-- when its attempts are below the job's own max_attempts, whatever the configured one is, and the
-- delay retry_base * 2 ^ (attempts - 1) is over.
pub cycle_failed-is_eligible :
    (c : QueueConfig) (now later : Instant) (r : PublishResult) (job : PublicationJob) (n : ℕ)
    → job.attempts ≡ suc n
    → is_eligible later (cycle_failed c now r job)
      ≡ (ltb (suc n) job.max_attempts && leb (now + c.retry_base * 2 ^ n) later)
cycle_failed-is_eligible c now later r job n h =
    ap (is_eligible later) (cycle_failed-failed_job c now r job)
    ∙ failed_job-is_eligible (record c { max_attempts = job.max_attempts }) now later
        (error_text r.error) job n h

seen-mark_self : (k : String) (keys : List String) → Keys.seen k (Keys.mark k keys) ≡ true
unfolding Keys.seen Keys.mark
seen-mark_self k keys = ground (arith, contains-add k k keys, ==_refl k)

cycle_success-keys :
    (iso : Instant → String) (now : Instant) (job : PublicationJob) (a : Article)
    (destination : String) (db : Db)
    → Keys.seen
        (version_key iso a.id destination (news_timestamp a))
        (cycle_success iso now job a destination db).1.keys
      ≡ true
unfolding cycle_success
cycle_success-keys iso now job a destination db =
    elim (Option-cases
      (Articles.save (record a { published_to_channel_at = some now }) db.articles)) [
        | inl e ↦ rw (e, cycle_success) (seen-mark_self _ _)
        | inr (rows, e) ↦ rw (e, cycle_success) (seen-mark_self _ _)
      ]

-- After a cycle has recorded a success of an article at a destination, even if saving the article
-- failed, the destination's publisher is not called again for the same version: it is skipped.
pub cycle_delivered_once :
    (iso : Instant → String) (now : Instant) (job : PublicationJob) (a : Article) (p : Publisher)
    (db : Db)
    → cycle_deliver iso p a (cycle_success iso now job a p.name db).1 ≡ skip p.name a.id
unfolding cycle_deliver is_done
cycle_delivered_once iso now job a p db = ground (arith, cycle_success-keys iso now job a p.name db)

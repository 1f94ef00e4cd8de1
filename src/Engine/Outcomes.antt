-- ===== src/Engine/Outcomes.antt =====
-- What a finished delivery does to its job: success, retry with growing delay, dead letter.
use yasin_press_rewrite.Base.{
  ℕ, suc, ◌+◌, ◌*◌, ◌^◌, ◌≡◌, refl, String, true, ◌&&◌, ◌||◌, Option, some, arith, leb, ltb,
  string_eq, ap, contains-add, ==_refl, List, ◌==◌,
}
use yasin_press_rewrite.Models.{
  Instant, Article, PublicationJob, is_waiting, news_timestamp, version_key,
}
use yasin_press_rewrite.Database.{Db}
use yasin_press_rewrite.Database.Articles
use yasin_press_rewrite.Database.Keys
use yasin_press_rewrite.Database.Queue.{is_eligible}
use yasin_press_rewrite.Engine.Config.{QueueConfig}
use yasin_press_rewrite.Engine.Finish.{backoff, failed_job, finish_success, mark_keys}
use yasin_press_rewrite.Engine.Run.{already_delivered, deliver, skip}
use yasin_press_rewrite.Models.{Publisher}

backoff-suc : (base n : ℕ) → backoff base (suc n) ≡ base * 2 ^ n
unfolding backoff
backoff-suc base n = refl

-- A job with at least one attempt is eligible again after a failure exactly when its attempts are
-- below max_attempts and the delay retry_base * 2 ^ (attempts - 1) is over.
pub failed_job-is_eligible :
    (c : QueueConfig) (now later : Instant) (error : String) (job : PublicationJob) (n : ℕ)
    → job.attempts ≡ suc n
    → is_eligible later (failed_job c now error job)
      ≡ (ltb (suc n) c.max_attempts && leb (now + c.retry_base * 2 ^ n) later)
unfolding is_eligible is_waiting failed_job
failed_job-is_eligible c now later error job n h =
    ground (arith, ap (backoff c.retry_base) h, backoff-suc c.retry_base n)

contains-mark :
    (k l : String) (keys : List String)
    → Keys.seen k (Keys.mark l keys) ≡ (Keys.seen k keys || (k == l))
unfolding Keys.seen Keys.mark
contains-mark k l keys = contains-add k l keys

mark_keys-seen :
    (iso : Instant → String) (job : PublicationJob) (articles : List Article) (keys : List String)
    (a : Article)
    → Articles.get job.article_id articles ≡ some a
    → Keys.seen
        (version_key iso job.article_id job.destination (news_timestamp a))
        (mark_keys iso job articles keys)
      ≡ true
unfolding mark_keys
mark_keys-seen iso job articles keys a found =
    rw (found, mark_keys)
      (rw contains-mark (
        rw (==_refl (version_key iso job.article_id job.destination (news_timestamp a)))
          (ground arith)))

news_timestamp_published :
    (a : Article) (t : Option Instant)
    → news_timestamp (record a { published_to_channel_at = t }) ≡ news_timestamp a
unfolding news_timestamp
news_timestamp_published a t = refl

deliver-skip :
    (iso : Instant → String) (p : Publisher) (a : Article) (db : Db)
    → Keys.seen (version_key iso a.id p.name (news_timestamp a)) db.keys ≡ true
    → deliver iso p a db ≡ skip p.name a.id
unfolding deliver already_delivered
deliver-skip iso p a db h = ground arith

-- Where the job's article is found under its id and the publisher's name is the job's destination,
-- after finish_success has recorded the delivery a publisher of that destination is not called
-- again for the same version of the article: deliver answers that it is skipped.
pub delivered_once :
    (iso : Instant → String) (now : Instant) (job : PublicationJob) (db : Db) (a : Article)
    (p : Publisher)
    → Articles.get job.article_id db.articles ≡ some a
    → a.id ≡ job.article_id
    → p.name ≡ job.destination
    → deliver iso p
        (record a { published_to_channel_at = some now })
        (finish_success iso now job db)
      ≡ skip p.name a.id
unfolding finish_success news_timestamp
delivered_once iso now job db a p found same name =
    deliver-skip iso p (record a { published_to_channel_at = some now })
      (finish_success iso now job db)
      (rw (news_timestamp_published a (some now), same, name)
        (mark_keys-seen iso job db.articles db.keys a found))

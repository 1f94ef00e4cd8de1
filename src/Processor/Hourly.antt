-- ===== src/Processor/Hourly.antt =====
-- The hourly limit after a whole call of process_cycle.
use yasin_press_rewrite.Base.{
  ◌≤◌, ◌≡◌, refl, inl, inr, ap, String, Bool, true, List, [], ◌∷◌, Option, arith, In, In-select,
  contains, union, length, length-le_of_subset, length-union, max, string_eq,
}
use yasin_press_rewrite.Models.{Instant, Article, PublicationJob, Publisher}
use yasin_press_rewrite.Database.{Db}
use yasin_press_rewrite.Database.Queue.{
  put_progress, get_eligible_jobs, get_stale_leased_jobs, is_stale,
}
use yasin_press_rewrite.Database.Keyed.{IsKeyed, In-put_progress}
use yasin_press_rewrite.Engine.Config.{QueueConfig}
use yasin_press_rewrite.Engine.Consumed.{consumed, available_slots}
use yasin_press_rewrite.Engine.Claim.{leased}
use yasin_press_rewrite.Engine.Finish.{recovered, recover_each, recover_expired_leases}
use yasin_press_rewrite.Engine.Usage.{Uses, consumed-Uses, Distinct-consumed, length-consumed-le}
use yasin_press_rewrite.Engine.Keys.{recover_each-IsKeyed}
use yasin_press_rewrite.Engine.Reach.{recover_each-Uses}
use yasin_press_rewrite.Processor.Select.{cycle_counts}
use yasin_press_rewrite.Processor.Slots.{length-select_new_articles}
use yasin_press_rewrite.Processor.Cycle.{select_jobs, lease_all, process_cycle}
use yasin_press_rewrite.Processor.Leases.{chosen, leased_db, In-select_jobs, leased_db-Uses}
use yasin_press_rewrite.Processor.Limit.{NoUrl, handle_jobs-Covers}

-- No job's article id is an article's URL.
abbrev pub IsNamed : List PublicationJob → List Article → Type 0
IsNamed jobs articles = (j : PublicationJob) → In j jobs → NoUrl j.article_id articles

put_progress-IsNamed :
    (job : PublicationJob) (rows : List PublicationJob) (articles : List Article)
    → NoUrl job.article_id articles
    → IsNamed rows articles
    → IsNamed (put_progress job rows) articles
put_progress-IsNamed job rows articles h named x m = elim (In-put_progress job rows x m) [
  | inl old ↦ named x old
  | inr (inl new) ↦ rw new h
  | inr (inr (o, i, _, new)) ↦ rw new (named o i)
]

recover_each-IsNamed :
    (stale rows : List PublicationJob) (articles : List Article)
    → IsNamed stale articles
    → IsNamed rows articles
    → IsNamed (recover_each stale rows) articles
unfolding recover_each recovered
recover_each-IsNamed [] rows articles s named = named
recover_each-IsNamed (j ∷ stale) rows articles s named =
    recover_each-IsNamed stale (put_progress (recovered j) rows) articles (λ i k. s i (inr k))
      (put_progress-IsNamed (recovered j) rows articles (s j (inl refl)) named)

pub In-lease_all :
    (c : QueueConfig) (now : Instant) (x : PublicationJob) (jobs : List PublicationJob)
    → In x (lease_all c now jobs)
    → (j : PublicationJob) × In j jobs × (x.article_id ≡ j.article_id)
unfolding lease_all leased
In-lease_all c now x [] h = elim h [ ]
In-lease_all c now x (j ∷ jobs) (inl e) = (j, inl refl, ap (λ (y : PublicationJob). y.article_id) e)
In-lease_all c now x (j ∷ jobs) (inr h) =
    let (i, m, e) = In-lease_all c now x jobs h in (i, inr m, e)

module _ (iso : Instant → String) (at_most : String → String → Bool) (c : QueueConfig)
    (publishers : String → Option Publisher) (now : Instant) (db : Db) where
  abbrev start : Db
  start = (recover_expired_leases now db).1

  start-IsNamed : IsNamed db.queue db.articles → IsNamed start.queue db.articles
  unfolding recover_expired_leases get_stale_leased_jobs
  start-IsNamed named =
      recover_each-IsNamed (get_stale_leased_jobs now db.queue) db.queue db.articles
        (λ j m. named j (In-select (is_stale now) j db.queue m).0) named

  process_cycle-Uses :
      IsKeyed start.queue
      → IsNamed start.queue start.articles
      → (a : String) → Uses now (process_cycle iso at_most c publishers now db).db a
      → contains a (union (consumed now start) (chosen at_most c now start)) ≡ true
  unfolding process_cycle
  process_cycle-Uses keyed named a u =
      elim (handle_jobs-Covers iso c now publishers
        (lease_all c now (select_jobs at_most c now start)) (leased_db at_most c now start)
        (λ x m.
          let (j, k, f) = In-lease_all c now x _ m in
          rw f (named j (In-select_jobs at_most c now start j k).0))
        a u) [
          | inl (x, m, e) ↦
              let (j, k, f) = In-lease_all c now x _ m in
              rw (e, f) (In-select_jobs at_most c now start j k).1
          | inr v ↦ leased_db-Uses at_most c now start keyed a v
        ]

  -- Where the queue's ids are distinct and no job's article id is the URL of a stored article, a
  -- whole call of process_cycle, with recovery, leases and deliveries by whatever publishers,
  -- leaves the articles that use up the hour at most global_limit many, or as many as they were.
  pub process_cycle-usage :
      IsKeyed db.queue
      → IsNamed db.queue db.articles
      → length (consumed now (process_cycle iso at_most c publishers now db).db)
        ≤ max (length (consumed now db)) c.global_limit
  unfolding available_slots recover_expired_leases
  process_cycle-usage keyed named =
      let now_keyed = recover_each-IsKeyed (get_stale_leased_jobs now db.queue) db.queue keyed in
      omega (
        arith,
        length-le_of_subset (consumed now (process_cycle iso at_most c publishers now db).db)
            (union (consumed now start) (chosen at_most c now start))
            (Distinct-consumed now (process_cycle iso at_most c publishers now db).db)
            (λ a m.
              process_cycle-Uses now_keyed (start-IsNamed named) a
                (consumed-Uses now (process_cycle iso at_most c publishers now db).db a m)),
        length-union (consumed now start) (chosen at_most c now start),
        length-select_new_articles c.source_limit (cycle_counts now start)
            (get_eligible_jobs now start.queue) (consumed now start) (available_slots c now start),
        length-consumed-le now now db start
            (recover_each-Uses now db (get_stale_leased_jobs now db.queue) db.queue),
      )

-- ===== src/Application/Histories.antt =====
-- Every history of calls of the application is a sequence of the engine's steps.
use yasin_press_rewrite.Base.{
  ℕ, ◌+◌, ◌≤◌, String, true, false, List, [], ◌∷◌, arith, length, lookup, string_eq,
}
use yasin_press_rewrite.Models.{Instant, Article, Publisher}
use yasin_press_rewrite.Engine.Config.{default_config}
use yasin_press_rewrite.Engine.Consumed.{recent_ids}
use yasin_press_rewrite.Engine.Finish.{recover_expired_leases}
use yasin_press_rewrite.Engine.Run.{Ran, idle, done, integrity_error, job_not_found, run_once}
use yasin_press_rewrite.Engine.Reach.{
  World, Reach, here, next, wait, store, recover, work, IsWithin, hourly_limit,
}
use yasin_press_rewrite.Pipeline.Queueing.{Signals, process, undelivered}
use yasin_press_rewrite.Pipeline.Articles.{FeedItem}
use yasin_press_rewrite.Pipeline.Submission.{queue_articles-Reach}
use yasin_press_rewrite.Application.Calls.{
  FeedSettings, normalized_articles, Application, names, process_items, publish_once, publisher_map,
  Drained, publish_pending,
}

-- What happens to the application: time passes, feeds are processed, leases are recovered, and one job
-- or several jobs are published.
pub data Operation : Type 0 where
  tick : ℕ → Operation
  feeds : FeedSettings → Signals → (Article → Article) → List FeedItem → Operation
  recovery publish : Operation
  drain : List ℕ → Operation

module _ (iso : Instant → String) (app : Application) where
  unfoldable pub operate : Operation → World → World
  unfolding process_items publish_once publish_pending
  operate (tick pause) w = record w { now = w.now + pause }
  operate (feeds f signals enrich items) w = (process_items iso app f signals enrich items w).1
  operate recovery w = record w { db = (recover_expired_leases w.now w.db).1 }
  operate publish w = (publish_once iso app w).1
  operate (drain pauses) w = (publish_pending iso app pauses w).world

  unfoldable pub operate_all : List Operation → World → World
  unfolding operate
  operate_all [] w = w
  operate_all (o ∷ more) w = operate_all more (operate o w)

  abbrev PathTo : World → World → Type 0
  PathTo s w = Reach iso default_config s w

  process_items-Reach :
      {s : World} (f : FeedSettings) (signals : Signals) (enrich : Article → Article)
      (items : List FeedItem) (w : World)
      → PathTo s w
      → PathTo s (process_items iso app f signals enrich items w).1
  unfolding process_items process
  process_items-Reach f signals enrich items w r =
      next
        (queue_articles-Reach iso default_config signals w.now app.max_attempts (names iso app)
          (undelivered enrich w.now app.max_age (names iso app) w.db.keys
            (normalized_articles f items w).articles)
          w r)
        (store _ _)

  publish_once-Reach : {s : World} (w : World) → PathTo s w → PathTo s (publish_once iso app w).1
  unfolding publish_once
  publish_once-Reach {s} w r = by_publishers app.publishers
    where
      by_publishers :
          (l : List Publisher)
          → PathTo s
              (elim l as (λ _. Ran × World) [
                | [] ↦ (idle, w)
                | p ∷ more ↦
                    let (ran, after) =
                      run_once iso default_config
                        (λ name. lookup name (publisher_map app.publishers []))
                        w.now
                        w.db in
                    (ran, record w { db = after })
              ]).1
      by_publishers [] = r
      by_publishers (p ∷ more) = next r (work w _)

  publish_pending-Reach :
      {s : World} (pauses : List ℕ) (w : World)
      → PathTo s w
      → PathTo s (publish_pending iso app pauses w).world
  unfolding publish_pending
  publish_pending-Reach [] w r = r
  publish_pending-Reach {s} (pause ∷ pauses) w r =
      by_ran (publish_once iso app (record w { now = w.now + pause })).0 mid
        (publish_pending-Reach pauses _ mid)
    where
      after : World
      after = (publish_once iso app (record w { now = w.now + pause })).1

      mid : PathTo s after
      mid =
          publish_once-Reach (record w { now = w.now + pause })
            (next r (wait w (w.now + pause) (omega arith)))

      rest : Drained iso app
      rest = publish_pending iso app pauses after

      by_ran :
          (ran : Ran)
          → PathTo s after
          → PathTo s rest.world
          → PathTo s
              (elim ran as (λ _. Drained iso app) [
                | idle ↦ record { results = []; raised = false; world = after }
                | done result ↦ record rest { results = result ∷ rest.results }
                | integrity_error ↦ record { results = []; raised = true; world = after }
                | job_not_found ↦ record { results = []; raised = true; world = after }
              ]).world
      by_ran idle h k = h
      by_ran (done result) h k = k
      by_ran integrity_error h k = h
      by_ran job_not_found h k = h

  operate-Reach : {s : World} (o : Operation) (w : World) → PathTo s w → PathTo s (operate o w)
  unfolding operate
  operate-Reach (tick pause) w r = next r (wait w (w.now + pause) (omega arith))
  operate-Reach (feeds f signals enrich items) w r = process_items-Reach f signals enrich items w r
  operate-Reach recovery w r = next r (recover w)
  operate-Reach publish w r = publish_once-Reach w r
  operate-Reach (drain pauses) w r = publish_pending-Reach pauses w r

  operate_all-Reach :
      {s : World} (os : List Operation) (w : World) → PathTo s w → PathTo s (operate_all os w)
  unfolding operate_all
  operate_all-Reach [] w r = r
  operate_all-Reach (o ∷ os) w r = operate_all-Reach os (operate o w) (operate-Reach o w r)

  -- From a state in which the queue's ids are distinct and the articles in use are at most ten,
  -- every history of calls of the application, which processes feeds, publishes one job or drains
  -- several, with recoveries and the passing of time in between, is a sequence of the engine's
  -- steps, and leaves at most ten articles delivered in the last hour.
  pub operate_all-within :
      (os : List Operation) (s : World)
      → IsWithin default_config s
      → Reach iso default_config s (operate_all os s)
        × (length (recent_ids (operate_all os s).now (operate_all os s).db) ≤ 10)
  operate_all-within os s h =
      let r = operate_all-Reach os s here in
      (r, (hourly_limit iso default_config s (operate_all os s) h r).0)

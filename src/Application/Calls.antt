-- ===== src/Application/Calls.antt =====
-- The calls of YasinPressApplication on its repositories, with a publication queue. What the AI provider
-- makes of an article is a parameter.
use yasin_press_rewrite.Base.{
  ℕ, ◌+◌, String, Bool, true, false, List, [], ◌∷◌, none, some, Dict, lookup, put, map, length,
  string_eq,
}
use yasin_press_rewrite.Models.{Instant, Article, PublishResult, Publisher}
use yasin_press_rewrite.Database.Articles.{save_many}
use yasin_press_rewrite.Engine.Config.{default_config}
use yasin_press_rewrite.Engine.Consumed.{metrics, EngineMetrics}
use yasin_press_rewrite.Engine.Run.{Ran, idle, done, integrity_error, job_not_found, run_once}
use yasin_press_rewrite.Engine.Reach.{World}
use yasin_press_rewrite.Pipeline.Articles.{FeedItem}
use yasin_press_rewrite.Pipeline.Items.{Cleaning, PipelineResult, process_feed}
use yasin_press_rewrite.Support.Dedup.{content_key, unique_items}
use yasin_press_rewrite.Pipeline.Queueing.{Signals, Report, news, process}

-- The settings of the processing service, and the publishers.
pub record Application : Type 0 where
  pub max_age : ℕ
  pub max_attempts : ℕ
  pub publishers : List Publisher

-- `{publisher.name: publisher for publisher in self.publishers}`
unfoldable pub publisher_map : List Publisher → Dict String Publisher → Dict String Publisher
publisher_map [] d = d
publisher_map (p ∷ more) d = publisher_map more (put p.name p d)

-- articles_by_id
unfoldable pub by_id : List Article → Dict String Article → Dict String Article
by_id [] d = d
by_id (a ∷ more) d = by_id more (put a.id a d)

-- all_articles: the normalized articles, the enriched ones in place of those with their ids.
unfoldable pub all_articles : List Article → List Article → List Article
unfolding by_id
all_articles enriched articles =
    map (λ a. elim (lookup a.id (by_id enriched [])) [ none ↦ a | some b ↦ b ]) articles

-- ApplicationReport, and whether save_many stored every article or raised an IntegrityError.
pub record ApplicationReport : Type 0 where
  pub processing : Report
  pub rejected : ℕ
  pub received_count : ℕ
  pub persisted_count : ℕ
  pub persisted : Bool

-- The name of the feeds, the hash of an item without a URL, and what cleaning does.
pub record FeedSettings : Type 0 where
  pub source : String
  pub digest : FeedItem → String
  pub cleaning : Cleaning

-- `self.pipeline.process(unique_items(items))`, whose callback finds no duplicate.
unfoldable pub normalized_articles : FeedSettings → List FeedItem → World → PipelineResult
normalized_articles f items w =
    process_feed f.cleaning (λ a. false) w.now f.source w.db.articles
      (unique_items (content_key f.cleaning.texts.strip f.digest) items)

module _ (iso : Instant → String) (app : Application) where
  abbrev pub names : List String
  names = map (λ (p : Publisher). p.name) app.publishers

  unfoldable pub process_items :
      FeedSettings
      → Signals
      → (Article → Article)
      → List FeedItem
      → World
      → ApplicationReport × World
  unfolding all_articles normalized_articles
  process_items f signals enrich items w =
      let normal : PipelineResult = normalized_articles f items w in
      let (report, queue) =
        process signals enrich w.now app.max_age app.max_attempts names w.db.keys normal.articles
          w.db.queue in
      let kept : List Article =
        all_articles (news enrich w.now app.max_age normal.articles) normal.articles in
      let (rows, ok) = save_many kept w.db.articles in
      (
        record {
          processing = report;
          rejected = normal.rejected;
          received_count = length items;
          persisted_count = length kept;
          persisted = ok;
        },
        record w { db = record w.db { queue = queue; articles = rows } },
      )

  -- publish_once: an engine with the default limits.
  unfoldable pub publish_once : World → Ran × World
  unfolding publisher_map
  publish_once w = elim app.publishers [
    | [] ↦ (idle, w)
    | p ∷ more ↦
        let (ran, after) =
          run_once iso default_config (λ name. lookup name (publisher_map app.publishers [])) w.now
            w.db in
        (ran, record w { db = after })
  ]

  -- What publish_pending returns, or that an exception left it.
  pub record Drained : Type 0 where
    pub results : List PublishResult
    pub raised : Bool
    pub world : World

  -- The loop of publish_pending: for each job at most, the time since the call before it.
  unfoldable pub publish_pending : List ℕ → World → Drained
  unfolding publish_once
  publish_pending [] w = record { results = []; raised = false; world = w }
  publish_pending (pause ∷ pauses) w =
      let (ran, after) = publish_once (record w { now = w.now + pause }) in
      let rest : Drained = publish_pending pauses after in
      elim ran [
        | idle ↦ record { results = []; raised = false; world = after }
        | done result ↦ record rest { results = result ∷ rest.results }
        | integrity_error ↦ record { results = []; raised = true; world = after }
        | job_not_found ↦ record { results = []; raised = true; world = after }
      ]

  unfoldable pub queue_metrics : World → EngineMetrics
  queue_metrics w = metrics default_config w.now w.db

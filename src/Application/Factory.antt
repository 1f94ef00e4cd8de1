-- ===== src/Application/Factory.antt =====
-- runtime_factory.py and health.py: how build_runtime puts the parts together, and its tick.
use yasin_press_rewrite.Base.{
  ℕ, zero, suc, ◌+◌, ◌-◌, String, Bool, true, false, not, List, [], ◌∷◌, Option, none, some, lookup,
  length, ◌==◌, string_eq, if◌then◌else◌,
}
use yasin_press_rewrite.Models.{Instant, Article, seconds}
use yasin_press_rewrite.Engine.Config.{QueueConfig}
use yasin_press_rewrite.Engine.Reach.{World}
use yasin_press_rewrite.Processor.Cycle.{Cycle, process_cycle}
use yasin_press_rewrite.Pipeline.Articles.{FeedItem}
use yasin_press_rewrite.Pipeline.Queueing.{Signals}
use yasin_press_rewrite.Scheduling.Jobs.{Job, Store, RecoveryReport, recover_jobs}
use yasin_press_rewrite.Support.Intervals.{ScheduledTask, add_interval, run_due}
use yasin_press_rewrite.Destinations.Pwa.{PwaPublisher, pwa_publisher}
use yasin_press_rewrite.Destinations.Rss.{RssPublisher, rss_publisher}
use yasin_press_rewrite.Destinations.Eitaa.{Built, eitaa_publisher}
use yasin_press_rewrite.Numbers.{ℤ, pos, negsuc, Float}
use yasin_press_rewrite.Application.Settings.{RuntimeConfig, validate}
use yasin_press_rewrite.Application.Calls.{
  FeedSettings, ApplicationReport, Application, process_items, publisher_map,
}

-- A number that validate has found to be positive.
abbrev natural : ℤ → ℕ
natural (pos n) = n
natural (negsuc n) = 0

-- The publishers of _configured_publishers, in their order.
pub record ConfiguredPublishers : Type 0 where
  pub pwa : PwaPublisher
  pub rss : RssPublisher
  pub eitaa : Option Built

-- _configured_publishers, with `str.strip` and `rstrip("/")`.
unfoldable pub configured_publishers :
    (String → String) → (String → String) → RuntimeConfig → ConfiguredPublishers
unfolding pwa_publisher rss_publisher eitaa_publisher
configured_publishers strip strip_slash c = record {
  pwa = pwa_publisher (record {
    has_output = not (c.pwa_output_path == "");
    title = c.pwa_title;
    home_page_url = c.pwa_home_page_url;
    feed_url = c.pwa_feed_url;
    language = c.language;
    max_items = natural c.max_feed_items;
  });
  rss = rss_publisher (record {
    feed_url = c.rss_feed_url;
    has_output = not (c.rss_output_path == "");
    title = c.rss_title;
    link = c.rss_link;
    description = "YasinPress news feed";
    language = c.language;
    max_items = natural c.max_feed_items;
  });
  eitaa =
      if c.eitaa_token == ""
      then none
      else some (
          eitaa_publisher strip strip_slash c.eitaa_token c.eitaa_channel c.eitaa_api_base
            c.request_timeout);
}

-- The limits of the PublicationQueueProcessor that build_runtime makes.
unfoldable pub cycle_limits : RuntimeConfig → QueueConfig
cycle_limits c = record {
  global_limit = natural c.max_publications_per_hour;
  source_limit = natural c.max_source_publications_per_hour;
  lease = seconds 60;
  retry_base = seconds 2;
  max_attempts = natural c.max_job_attempts;
}

pub record HealthStatus : Type 0 where
  pub ok : Bool
  pub database : Bool
  pub message : String

-- check_database, with what `SELECT 1` raises.
unfoldable pub check_database : Option String → HealthStatus
check_database none = record { ok = true; database = true; message = "ok" }
check_database (some e) = record { ok = false; database = false; message = e }

-- What build_runtime does before its parts run: the ValueError of the configuration, the RuntimeError
-- of the database, the error of an interval that `timedelta` or add_interval refuses, or the recovered jobs,
-- and the fetching of the feeds, if there are any.
pub data Build : Type 0 where
  bad_config unready : String → Build
  bad_interval : RecoveryReport → Store → String → Build
  started : RecoveryReport → Store → List ScheduledTask → Build

-- What `timedelta(seconds=...)` gives, in microseconds, or the error that it raises.
pub data Interval : Type 0 where
  refused : String → Interval
  lasts : ℕ → Interval

-- The tasks of the scheduler, or an error.
pub data Scheduled : Type 0 where
  fails : String → Scheduled
  gives : List ScheduledTask → Scheduled

unfoldable pub feed_tasks : (Float → Interval) → RuntimeConfig → Instant → Scheduled
unfolding add_interval
feed_tasks timedelta c now = elim c.feed_urls [
  | [] ↦ gives []
  | url ∷ urls ↦ elim (timedelta c.scheduler_interval) [
    | refused e ↦ fails e
    | lasts interval ↦ elim (add_interval now "feed-fetch" interval (λ t. none) []) [
      | none ↦ fails "interval must be positive"
      | some tasks ↦ gives tasks
    ]
  ]
]

unfoldable pub build_runtime :
    (Float → Interval) → RuntimeConfig → Option String → Instant → List Job → Store → Build
unfolding check_database feed_tasks
build_runtime timedelta c probe now jobs store = elim (validate c) [
  | some e ↦ bad_config e
  | none ↦
      if not (check_database probe).ok
      then unready (check_database probe).message
      else let (report, after) = recover_jobs jobs store in
        elim (feed_tasks timedelta c now) [
          | fails e ↦ bad_interval report after e
          | gives tasks ↦ started report after tasks
        ]
]

-- The settings that do not change while the process runs. What the AI provider makes of an article may
-- change with the time.
pub record Setup : Type 0 where
  pub iso : Instant → String
  pub at_most : String → String → Bool
  pub app : Application
  pub limits : QueueConfig
  pub feed : FeedSettings
  pub signals : Signals
  pub enrich : Instant → Article → Article

-- A running process: the world, the submitted fetch jobs and the tasks of the scheduler.
pub record Production : Type 0 where
  pub world : World
  pub waiting : ℕ
  pub tasks : List ScheduledTask

-- One call of a fetch job's handler: how long the sleep before it and the fetching take, and the items
-- of the feeds.
pub record FeedCall : Type 0 where
  pub pause : ℕ
  pub items : List FeedItem

-- One tick: the time since the last one, what each attempt of a fetch job gets, and the time until the
-- cycle of the queue.
pub record TickInput : Type 0 where
  pub pause : ℕ
  pub fetched : ℕ → FeedCall
  pub settling : ℕ

-- What a tick gives: the last report of the fetch job, if one was waiting, the cycle of the queue, and
-- the process after it.
pub record Ticked : Type 0 where
  pub report : Option ApplicationReport
  pub cycle : Cycle
  pub after : Production

module _ (s : Setup) where
  -- The attempts of Worker.run_once at `execute` of submit_urls, from the `attempt`-th on, `left` of
  -- them: an IntegrityError of save_many leads to the next one.
  unfoldable pub fetch_attempts : (ℕ → FeedCall) → ℕ → ℕ → World → Option ApplicationReport × World
  unfolding process_items
  fetch_attempts fetched zero attempt w = (none, w)
  fetch_attempts fetched (suc left) attempt w =
      let then_ : World = record w { now = w.now + (fetched attempt).pause } in
      let (report, after) =
        process_items s.iso s.app s.feed s.signals (s.enrich then_.now) (fetched attempt).items
          then_ in
      let rest : Option ApplicationReport × World =
        fetch_attempts fetched left (suc attempt) after in
      if report.persisted then (some report, after) else rest

  -- `worker.run_once()`
  unfoldable pub work_once : (ℕ → FeedCall) → ℕ → World → Option ApplicationReport × World
  unfolding fetch_attempts
  work_once fetched zero w = (none, w)
  work_once fetched (suc waiting) w = fetch_attempts fetched s.app.max_attempts 0 w

  unfoldable pub tick : TickInput → Production → Ticked
  unfolding work_once process_cycle
  tick input p =
      let start : World = record p.world { now = p.world.now + input.pause } in
      let (ran, tasks) = run_due start.now p.tasks in
      let waiting : ℕ = p.waiting + length ran in
      let (report, worked) = work_once input.fetched waiting start in
      let at : World = record worked { now = worked.now + input.settling } in
      let cycle : Cycle =
        process_cycle s.iso s.at_most s.limits
          (λ name. lookup name (publisher_map s.app.publishers [])) at.now at.db in
      record {
        report = report;
        cycle = cycle;
        after = record {
          world = record at { db = cycle.db };
          waiting = waiting - 1;
          tasks = tasks;
        };
      }

  unfoldable pub run_ticks : List TickInput → Production → Production
  unfolding tick
  run_ticks [] p = p
  run_ticks (input ∷ more) p = run_ticks more (tick input p).after

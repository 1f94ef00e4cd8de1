-- ===== src/Cli/Start.antt =====
-- _startup_feed_setup and main of cli/main.py, and active_feeds of sources/catalog.py. Probing a feed, the console and
-- `str` are parameters.
use yasin_press_rewrite.Base.{
  ℕ, ◌+◌, String, Bool, ◌&&◌, not, List, [], ◌∷◌, ◌++◌, Option, none, some, map, select, sort_by,
  leb, ◌==◌, string_eq, if◌then◌else◌,
}
use yasin_press_rewrite.Application.Settings.{RuntimeConfig, validate}
use yasin_press_rewrite.Application.Factory.{
  Build, bad_config, unready, bad_interval, started, HealthStatus,
}

pub record RssFeed : Type 0 where
  pub name : String
  pub url : String

-- active_feeds: the feeds of the catalog that respond, in the order in which their probes end, sorted by
-- their place in the catalog.
unfoldable pub place : String → List RssFeed → ℕ
place url [] = 0
place url (feed ∷ catalog) = let rest = place url catalog in if feed.url == url then 0 else 1 + rest

unfoldable pub active_feeds : List RssFeed → (RssFeed → Bool) → List RssFeed → List RssFeed
unfolding place
active_feeds catalog probe completed =
    sort_by (λ a b. leb (place a.url catalog) (place b.url catalog)) (select probe completed)

-- What the user answers: whether there is a custom feed, and its URL.
pub record Answers : Type 0 where
  pub wants_custom : Bool
  pub custom_url : String

-- The feeds that YASINPRESS_FEEDS is set to, or that it is left alone.
pub data FeedSetup : Type 0 where
  left_alone : FeedSetup
  feeds_set : List String → FeedSetup

abbrev custom : Answers → List String
custom a = if a.wants_custom && not (a.custom_url == "") then a.custom_url ∷ [] else []

-- The discovery; `none` is an exception of active_feeds.
unfoldable pub discovered : Option (List RssFeed) → Answers → FeedSetup
discovered none answers = left_alone
discovered (some []) answers = left_alone
discovered (some (feed ∷ feeds)) answers =
    feeds_set (map (λ (f : RssFeed). f.url) (feed ∷ feeds) ++ custom answers)

unfoldable pub startup_feed_setup :
    (String → Bool) → List String → Option (List RssFeed) → Answers → FeedSetup
unfolding discovered
startup_feed_setup responds urls active answers = elim (select responds urls) [
  | [] ↦ discovered active answers
  | url ∷ more ↦ feeds_set (url ∷ more)
]

pub data Command : Type 0 where
  show_version check_config show_health run_news : Command

-- The exit code of main, or the text of an exception that leaves it.
pub data Exit : Type 0 where
  exits : ℕ → Exit
  raises : String → Exit

-- main, with the configuration of the environment, what build_runtime comes to, and the health of its
-- database.
unfoldable pub main : Command → RuntimeConfig → Build → HealthStatus → Exit
main show_version config build health = exits 0
main check_config config build health = elim (validate config) [
  | none ↦ exits 0
  | some e ↦ raises e
]
main show_health config (bad_config e) health = raises e
main show_health config (unready e) health = raises e
main show_health config (bad_interval report store e) health = raises e
main show_health config (started report store tasks) health = exits (if health.ok then 0 else 1)
main run_news config (bad_config e) health = raises e
main run_news config (unready e) health = raises e
main run_news config (bad_interval report store e) health = raises e
main run_news config (started report store tasks) health = exits 0

-- ===== src/Application/Tests.antt =====
-- A history of calls of an application with one publisher.
use yasin_press_rewrite.Base.{
  ◌≤◌, ◌≡◌, ◌↔◌, true, false, [], ◌∷◌, none, some, List, length, arith, to_set, select, sort_by,
  union, refl, ◌==◌, string_eq,
}
use yasin_press_rewrite.Models.{returns, Publisher}
use yasin_press_rewrite.Database.{empty}
use yasin_press_rewrite.Database.Queue.{get_all_jobs}
use yasin_press_rewrite.Samples.{noon, iso}
use yasin_press_rewrite.Engine.Config.{default_config}
use yasin_press_rewrite.Engine.Consumed.{
  consumed, active_ids, processing_jobs, recent_ids, recent_successes,
}
use yasin_press_rewrite.Engine.Reach.{World, Reach, IsWithin}
use yasin_press_rewrite.Pipeline.Queueing.{Signals}
use yasin_press_rewrite.Pipeline.Articles.{FeedItem}
use yasin_press_rewrite.Application.Calls.{FeedSettings, Application}
use yasin_press_rewrite.Application.Settings.{defaults, validate}
use yasin_press_rewrite.Application.Factory.{Setup, Production, TickInput, run_ticks}
use yasin_press_rewrite.Application.Production.{IsSound, IsSafe, run_ticks-limit}
use yasin_press_rewrite.Application.Validity.{IsValid, validate-IsValid}
use yasin_press_rewrite.Application.Histories.{
  Operation, tick, feeds, recovery, publish, drain, operate_all, operate_all-within,
}

abbrev printer : Publisher
printer = record {
  name = "rss";
  publish = λ a. returns (record {
    success = true;
    destination = "rss";
    external_id = some a.url;
    error = none;
    skipped = false;
  });
}

abbrev app : Application
app = record { max_age = 43_200_000_000; max_attempts = 3; publishers = printer ∷ [] }

abbrev signals : Signals
signals = record {
  high_hits = λ a. 1;
  medium_hits = λ a. 0;
  says_breaking = λ a. false;
  severe = λ a. true;
}

abbrev item : FeedItem
item = record {
  title = "Title";
  url = "https://example.org/a";
  content = "Text";
  published_at = some 43_100_000_000;
  source = "";
  media_url = none;
  media_type = none;
  updated_at = none;
  fetched_at = 43_195_000_000;
}

abbrev settings : FeedSettings
settings = record {
  source = "irna";
  digest = λ i. i.title;
  cleaning = record {
    texts = record { headline = λ t. t; strip = λ t. t; news_id = λ t url. "YP-260101-ABCDEF" };
    clean_html = λ t. t;
    is_absolute = λ url. true;
  };
}

abbrev start : World
start = record { now = noon; db = empty }

start-IsWithin : IsWithin default_config start
unfolding consumed union active_ids to_set processing_jobs select get_all_jobs sort_by recent_ids
    recent_successes
start-IsWithin = record { keyed = tt; within = omega arith }

abbrev day : List Operation
day =
    feeds settings signals (λ a. a) (item ∷ [])
    ∷ tick 1_000
    ∷ publish
    ∷ recovery
    ∷ drain (5 ∷ 5 ∷ [])
    ∷ []

operate_all-within_example :
    Reach iso default_config start (operate_all iso app day start)
    × (length (recent_ids (operate_all iso app day start).now (operate_all iso app day start).db)
        ≤ 10)
operate_all-within_example = operate_all-within iso app day start start-IsWithin

validate-IsValid_example : (validate defaults ≡ none) ↔ IsValid defaults
validate-IsValid_example = validate-IsValid defaults

abbrev web : FeedSettings
web = record settings {
  cleaning = record {
    texts = record { headline = λ t. t; strip = λ t. t; news_id = λ t url. "YP-260101-ABCDEF" };
    clean_html = λ t. t;
    is_absolute = λ url. url == "https://example.org/a";
  };
}

abbrev setup : Setup
setup = record {
  iso = iso;
  at_most = λ a b. true;
  app = app;
  limits = record default_config { global_limit = 1 };
  feed = web;
  signals = signals;
  enrich = λ t a. a;
}

setup-IsSound : IsSound setup
setup-IsSound = record { new_ids = λ t url. refl; keeps = λ t a. (refl, refl) }

abbrev booted : Production
booted = record {
  world = start;
  waiting = 0;
  tasks =
      record { name = "feed-fetch"; interval = 60_000_000; handler = λ t. none; next_run_at = noon }
      ∷ [];
}

booted-IsSafe : IsSafe setup booted.world
unfolding consumed union active_ids to_set processing_jobs select get_all_jobs sort_by recent_ids
    recent_successes
booted-IsSafe = record {
  proper = record { articles = λ a m. absurd m; jobs = λ j m. absurd m; keyed = tt };
  within = omega arith;
}

abbrev ticks : List TickInput
ticks =
    record { pause = 0; fetched = λ n. record { pause = 5; items = item ∷ [] }; settling = 1 }
    ∷ record { pause = 30; fetched = λ n. record { pause = 5; items = [] }; settling = 1 }
    ∷ []

run_ticks-limit_example :
    IsSafe setup (run_ticks setup ticks booted).world
    × (length (
          recent_ids
            (run_ticks setup ticks booted).world.now
            (run_ticks setup ticks booted).world.db)
        ≤ 1)
run_ticks-limit_example = run_ticks-limit setup setup-IsSound ticks booted booted-IsSafe

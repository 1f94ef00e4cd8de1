-- ===== src/Application/Settings.antt =====
-- config/runtime.py: RuntimeConfig. Intervals and the time-out are in seconds, the age of an article is
-- in hours. The environment and the reading of numbers are parameters.
use yasin_press_rewrite.Base.{
  String, ◌||◌, ◌&&◌, not, List, [], Option, none, some, map, select, ◌==◌, ◌>>=◌, string_eq,
  if◌then◌else◌,
}
use yasin_press_rewrite.Numbers.{ℤ, pos, Float, finite, is_positive, is_at_most_zero}

pub record RuntimeConfig : Type 0 where
  pub database_path : String
  pub worker_interval : Float
  pub scheduler_interval : Float
  pub max_job_attempts : ℤ
  pub request_timeout : Float
  pub feed_urls : List String
  pub feed_source : String
  pub language : String
  pub eitaa_token : String
  pub eitaa_channel : String
  pub eitaa_api_base : String
  pub pwa_output_path : String
  pub pwa_title : String
  pub pwa_home_page_url : String
  pub pwa_feed_url : String
  pub rss_output_path : String
  pub rss_title : String
  pub rss_link : String
  pub rss_feed_url : String
  pub max_feed_items : ℤ
  pub max_article_age : Float
  pub max_publications_per_hour : ℤ
  pub max_source_publications_per_hour : ℤ

abbrev pub defaults : RuntimeConfig
defaults = record {
  database_path = "yasinpress.db";
  worker_interval = finite (pos 30) (pos 0);
  scheduler_interval = finite (pos 60) (pos 0);
  max_job_attempts = pos 3;
  request_timeout = finite (pos 20) (pos 0);
  feed_urls = [];
  feed_source = "rss";
  language = "fa";
  eitaa_token = "";
  eitaa_channel = "";
  eitaa_api_base = "https://eitaayar.ir/api";
  pwa_output_path = "data/pwa/feed.json";
  pwa_title = "YasinPress";
  pwa_home_page_url = "";
  pwa_feed_url = "";
  rss_output_path = "data/rss/feed.xml";
  rss_title = "YasinPress";
  rss_link = "";
  rss_feed_url = "";
  max_feed_items = pos 100;
  max_article_age = finite (pos 12) (pos 0);
  max_publications_per_hour = pos 10;
  max_source_publications_per_hour = pos 5;
}

-- The environment; `str.strip` and `raw.split(",")`; `float` and `int`, where
-- `none` is a ValueError.
pub record Environment : Type 0 where
  pub getenv : String → Option String
  pub strip : String → String
  pub split : String → List String
  pub read_float : String → Option Float
  pub read_int : String → Option ℤ

module _ (env : Environment) where
  -- `os.getenv(name, default)`
  abbrev text_of : String → String → String
  text_of name default = elim (env.getenv name) [ none ↦ default | some s ↦ s ]

  abbrev stripped : String → String → String
  stripped name default = env.strip (text_of name default)

  -- A number of the environment, or the default.
  abbrev number_of : {A : Type 0} → (String → Option A) → String → A → Option A
  number_of read name default = elim (env.getenv name) [ none ↦ some default | some s ↦ read s ]

  unfoldable pub feeds_of : String → List String
  feeds_of raw = select (λ s. not (s == "")) (map env.strip (env.split raw))

  -- from_env: `none` is a ValueError.
  unfoldable pub from_env : Option RuntimeConfig
  unfolding feeds_of
  from_env = do
    worker ← number_of env.read_float "YASINPRESS_WORKER_INTERVAL" defaults.worker_interval
    scheduler ← number_of env.read_float "YASINPRESS_SCHEDULER_INTERVAL" defaults.scheduler_interval
    attempts ← number_of env.read_int "YASINPRESS_MAX_JOB_ATTEMPTS" defaults.max_job_attempts
    timeout ← number_of env.read_float "YASINPRESS_REQUEST_TIMEOUT" defaults.request_timeout
    items ← number_of env.read_int "YASINPRESS_MAX_FEED_ITEMS" defaults.max_feed_items
    age ← number_of env.read_float "YASINPRESS_MAX_ARTICLE_AGE_HOURS" defaults.max_article_age
    hourly ←
        number_of env.read_int "YASINPRESS_MAX_PUBLICATIONS_PER_HOUR"
          defaults.max_publications_per_hour
    by_source ←
        number_of env.read_int "YASINPRESS_MAX_SOURCE_PUBLICATIONS_PER_HOUR"
          defaults.max_source_publications_per_hour
    some (record {
      database_path = text_of "YASINPRESS_DATABASE" defaults.database_path;
      worker_interval = worker;
      scheduler_interval = scheduler;
      max_job_attempts = attempts;
      request_timeout = timeout;
      feed_urls = feeds_of (text_of "YASINPRESS_FEEDS" "");
      feed_source = text_of "YASINPRESS_FEED_SOURCE" defaults.feed_source;
      language =
          let given : String = stripped "YASINPRESS_LANGUAGE" defaults.language in
          if given == "" then defaults.language else given;
      eitaa_token = stripped "YASINPRESS_EITAA_TOKEN" "";
      eitaa_channel = stripped "YASINPRESS_EITAA_CHANNEL" "";
      eitaa_api_base = stripped "YASINPRESS_EITAA_API_BASE" defaults.eitaa_api_base;
      pwa_output_path = stripped "YASINPRESS_PWA_OUTPUT" defaults.pwa_output_path;
      pwa_title = stripped "YASINPRESS_PWA_TITLE" defaults.pwa_title;
      pwa_home_page_url = stripped "YASINPRESS_PWA_HOME_URL" defaults.pwa_home_page_url;
      pwa_feed_url = stripped "YASINPRESS_PWA_FEED_URL" defaults.pwa_feed_url;
      rss_output_path = stripped "YASINPRESS_RSS_OUTPUT" defaults.rss_output_path;
      rss_title = stripped "YASINPRESS_RSS_TITLE" defaults.rss_title;
      rss_link = stripped "YASINPRESS_RSS_LINK" defaults.rss_link;
      rss_feed_url = stripped "YASINPRESS_RSS_FEED_URL" defaults.rss_feed_url;
      max_feed_items = items;
      max_article_age = age;
      max_publications_per_hour = hourly;
      max_source_publications_per_hour = by_source;
    })

-- validate: the text of the ValueError, or `none`.
unfoldable pub validate : RuntimeConfig → Option String
validate c =
    if c.database_path == ""
    then some "database_path must not be empty"
    else if is_at_most_zero c.worker_interval || is_at_most_zero c.scheduler_interval
    then some "runtime intervals must be positive"
    else if not (is_positive c.max_job_attempts)
    then some "max_job_attempts must be >= 1"
    else if is_at_most_zero c.request_timeout
    then some "request_timeout_seconds must be positive"
    else if is_at_most_zero c.max_article_age
    then some "max_article_age_hours must be positive"
    else if not (is_positive c.max_publications_per_hour)
    then some "max_publications_per_hour must be >= 1"
    else if not (is_positive c.max_source_publications_per_hour)
    then some "max_source_publications_per_hour must be >= 1"
    else if not (is_positive c.max_feed_items)
    then some "max_feed_items must be >= 1"
    else if c.feed_source == ""
    then some "feed_source must not be empty"
    else if c.language == ""
    then some "language must not be empty"
    else if (c.pwa_output_path == "") || (c.rss_output_path == "")
    then some "PWA and RSS output paths must not be empty"
    else if not (c.eitaa_token == "") && (c.eitaa_channel == "")
    then some "YASINPRESS_EITAA_TOKEN and YASINPRESS_EITAA_CHANNEL must be set together"
    else if (c.eitaa_token == "") && not (c.eitaa_channel == "")
    then some "YASINPRESS_EITAA_TOKEN and YASINPRESS_EITAA_CHANNEL must be set together"
    else none

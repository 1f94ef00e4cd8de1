-- ===== src/Sources/Manager.antt =====
-- sources/manager.py. What the fetch engine answers and the parser of feeds are parameters; all clock
-- readings of a call are `now`.
use yasin_press_rewrite.Base.{
  ℕ, ◌+◌, String, Bool, true, false, ◌&&◌, not, List, [], ◌∷◌, ◌++◌, Option, none, some, ltb, leb,
  any, all, map, select, first, string_eq, nat_eq, ◌==◌, if◌then◌else◌,
}
use yasin_press_rewrite.Models.{Instant}
use yasin_press_rewrite.Pipeline.Articles.{FeedItem}

pub data SourceStatus : Type 0 where
  healthy degraded failed : SourceStatus

pub record Source : Type 0 where
  pub name : String
  pub url : String
  pub enabled : Bool
  pub status : SourceStatus
  pub last_success : Option Instant
  pub last_failure : Option Instant
  pub response_time : Option ℕ
  pub consecutive_failures : ℕ
  pub success_count : ℕ
  pub failure_count : ℕ
  pub stale_count : ℕ

-- SourceManager, over its list of sources.
unfoldable pub add_source : Source → List Source → List Source
add_source s sources = sources ++ s ∷ []

unfoldable pub enabled_sources : List Source → List Source
enabled_sources sources = select (λ (s : Source). s.enabled) sources

unfoldable pub get_source : String → List Source → Option Source
get_source name sources = first (λ (s : Source). s.name == name) sources

-- What happens in a call: the engine's payload, or an exception; a payload that is not XML makes the
-- parser raise.
pub data Fetched : Type 0 where
  payload : String → Fetched
  raised : Fetched

-- valid_dates: the publication dates that are there and are not the epoch.
unfoldable pub valid_dates : List FeedItem → List Instant
valid_dates [] = []
valid_dates (item ∷ items) = elim item.published_at [
  | none ↦ valid_dates items
  | some t ↦ if t == 0 then valid_dates items else t ∷ valid_dates items
]

-- `valid_dates and all(now - pub > stale_threshold for pub in valid_dates)`
unfoldable pub all_stale : Instant → ℕ → List FeedItem → Bool
unfolding valid_dates
all_stale now threshold items =
    any (λ (t : Instant). true) (valid_dates items)
    && all (λ t. ltb (t + threshold) now) (valid_dates items)

-- The counters after a payload.
unfoldable pub responded : Instant → ℕ → Source → Source
responded now elapsed s = record s {
  response_time = some elapsed;
  last_success = some now;
  success_count = s.success_count + 1;
  consecutive_failures = 0;
}

-- The status after the items were parsed.
unfoldable pub judged : Instant → ℕ → List FeedItem → Source → Source
unfolding all_stale
judged now threshold [] s = record s { status = degraded; stale_count = s.stale_count + 1 }
judged now threshold (item ∷ items) s =
    if all_stale now threshold (item ∷ items)
    then record s { stale_count = s.stale_count + 1; status = degraded }
    else record s { stale_count = 0; status = healthy; enabled = true }

-- The `except` branch.
unfoldable pub fetch_failed : Instant → ℕ → Source → Source
fetch_failed now elapsed s =
    let n : ℕ = s.consecutive_failures + 1 in
    let counted : Source = record s {
      response_time = some elapsed;
      last_failure = some now;
      failure_count = s.failure_count + 1;
      consecutive_failures = n;
    } in
    if leb 3 n
    then record counted { status = failed; enabled = false }
    else record counted { status = degraded }

-- The returned item: it has the source's name, and neither the feed's update time nor its fetch time.
unfoldable pub relabelled : Instant → String → FeedItem → FeedItem
relabelled now name item = record item { source = name; updated_at = none; fetched_at = now }

-- The `try` block after a payload.
unfoldable pub take_items :
    Instant → ℕ → ℕ → Option (List FeedItem) → Source → List FeedItem × Source
unfolding responded judged fetch_failed relabelled
take_items now elapsed threshold none s = ([], fetch_failed now elapsed (responded now elapsed s))
take_items now elapsed threshold (some items) s =
    (map (relabelled now s.name) items, judged now threshold items (responded now elapsed s))

unfoldable pub ingest_source :
    (String → Option (List FeedItem)) → Instant → ℕ → ℕ → Fetched → Source → List FeedItem × Source
unfolding take_items
ingest_source parse_rss now elapsed threshold fetched s =
    if not s.enabled then ([], s) else elim fetched [
      | payload text ↦ take_items now elapsed threshold (parse_rss text) s
      | raised ↦ ([], fetch_failed now elapsed s)
    ]

-- ===== src/Pipeline/Articles.antt =====
-- normalize (processing/normalization.py), DuplicateDetector.is_duplicate and the freshness tests.
use yasin_press_rewrite.Base.{
  ℕ, ◌+◌, String, Bool, false, ◌||◌, ◌&&◌, not, List, [], ◌∷◌, ◌++◌, Option, none, some, ltb, leb,
  ◌==◌, string_eq, nat_eq, if◌then◌else◌, some_and, none_or,
}
use yasin_press_rewrite.Models.{
  Instant, Article, Value, text, seconds, first_timestamp, news_timestamp,
}
use yasin_press_rewrite.Database.Articles as Table

pub record FeedItem : Type 0 where
  pub title : String
  pub url : String
  pub content : String
  pub published_at : Option Instant
  pub source : String
  pub media_url : Option String
  pub media_type : Option String
  pub updated_at : Option Instant
  pub fetched_at : Instant

-- What normalize does to texts: normalize_headline, `str.strip`, and the id of a new article from the
-- day of a timestamp and the hash of its URL.
pub record Texts : Type 0 where
  pub headline : String → String
  pub strip : String → String
  pub news_id : Instant → String → String

-- `published_val is None or published_val == epoch`, and the same for `updated_val`
unfoldable pub is_missing : Option Instant → Bool
is_missing t = none_or t (λ u. u == 0)

-- The stored `updated_at` stays if the incoming one is missing or older.
unfoldable pub kept_updated : Option Instant → Option Instant → Option Instant
unfolding is_missing
kept_updated incoming none = incoming
kept_updated incoming (some old) =
    if is_missing incoming || some_and incoming (λ u. ltb u old) then some old else incoming

-- `news_ts`; it is read again from the kept `updated_at`.
unfoldable pub incoming_news : FeedItem → Option Article → Option Instant
unfolding kept_updated
incoming_news item none = first_timestamp item.updated_at item.published_at
incoming_news item (some e) =
    elim (first_timestamp (kept_updated item.updated_at e.updated_at) item.published_at) [
      | some t ↦ some t
      | none ↦ first_timestamp item.updated_at item.published_at
    ]

-- is_valid_update: news of more than five seconds after the stored news.
unfoldable pub is_valid_update : FeedItem → Option Article → Bool
unfolding incoming_news
is_valid_update item none = false
is_valid_update item (some e) =
    some_and (incoming_news item (some e))
      (λ t. none_or (first_timestamp e.updated_at e.published_at) (λ old. ltb (old + seconds 5) t))

unfoldable pub kept_published : Option Instant → Option Article → Option Instant
unfolding is_missing
kept_published incoming none = incoming
kept_published incoming (some e) = elim e.published_at [
  | none ↦ incoming
  | some old ↦ if is_missing incoming then some old else incoming
]

-- A value of the metadata, if the item has a text for it that is not empty.
unfoldable pub entry : String → Option String → List (String × Value)
entry key none = []
entry key (some value) = if value == "" then [] else (key, text value) ∷ []

-- normalize, with the article that the repository has under the item's URL.
unfoldable pub normalize : Texts → FeedItem → String → Option String → Option Article → Article
unfolding is_valid_update kept_published entry
normalize texts item source event existing = record {
  id = elim existing [
    | some e ↦ e.id
    | none ↦ elim (incoming_news item none) [
      | some t ↦ texts.news_id t item.url
      | none ↦ texts.news_id item.fetched_at item.url
    ]
  ];
  title = texts.headline item.title;
  url = item.url;
  content = texts.strip item.content;
  source = source;
  published_at = kept_published item.published_at existing;
  category = none;
  ai_modified = false;
  event_id = event;
  received_at = item.fetched_at;
  lifecycle_state = elim (incoming_news item existing) [
    | none ↦ "timestamp_unknown"
    | some t ↦ "fetched"
  ];
  ai_state = "none";
  ai_error = none;
  source_metadata = entry "media_url" item.media_url ++ entry "media_type" item.media_type;
  updated_at = elim existing [
    | none ↦ item.updated_at
    | some e ↦ kept_updated item.updated_at e.updated_at
  ];
  fetched_at = item.fetched_at;
  processed_at = none;
  published_to_channel_at =
      if is_valid_update item existing
      then none
      else elim existing [ none ↦ none | some e ↦ e.published_to_channel_at ];
}

-- DuplicateDetector.is_duplicate, over the article table.
unfoldable pub is_duplicate : Article → List Article → Bool
is_duplicate a rows = elim (Table.get a.id rows) [
  | none ↦ Table.exists a.id rows
  | some existing ↦ not (
      some_and (news_timestamp a)
        (λ t. none_or (news_timestamp existing) (λ old. ltb (old + seconds 5) t)))
]

-- processing/freshness.py: is_fresh, whose legacy parameters have no effect.
unfoldable pub is_fresh : Instant → ℕ → Option Instant → Bool
is_fresh now max_age published_at = some_and published_at (λ t. ltb now t || leb now (t + max_age))

-- ProcessingService._fresh
unfoldable pub fresh : Instant → ℕ → Article → Bool
fresh now max_age a =
    not (a.lifecycle_state == "timestamp_unknown")
    && some_and (news_timestamp a) (λ t. leb now (t + max_age))

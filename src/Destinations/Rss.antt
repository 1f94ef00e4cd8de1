-- ===== src/Destinations/Rss.antt =====
-- publishing/rss.py. The file is the channel that ElementTree writes and reads back; `rfc` is
-- `format_datetime`, which raises on a missing date.
use yasin_press_rewrite.Base.{
  ℕ, String, Bool, true, false, not, List, [], ◌∷◌, Option, none, some, max, take, ◌==◌, string_eq,
  if◌then◌else◌,
}
use yasin_press_rewrite.Models.{Instant, Article, PublishResult}
use yasin_press_rewrite.Destinations.Items.{insert_item}

pub record RssItem : Type 0 where
  pub title : String
  pub link : String
  pub guid : String
  pub description : String
  pub pub_date : String
  pub category : Option String
  pub source : Option String

pub record RssChannel : Type 0 where
  pub title : String
  pub link : String
  pub description : String
  pub language : Option String
  pub self_link : Option String
  pub last_build : Option String
  pub items : List RssItem

pub record RssPublisher : Type 0 where
  pub feed_url : String
  pub has_output : Bool
  pub title : String
  pub link : String
  pub description : String
  pub language : String
  pub max_items : ℕ

-- The constructor, which raises the number of items to one at least.
unfoldable pub rss_publisher : RssPublisher → RssPublisher
rss_publisher p = record p { max_items = max 1 p.max_items }

-- The text, unless it is empty.
abbrev pub if_given : String → Option String
if_given s = if s == "" then none else some s

abbrev pub if_some : Option String → Option String
if_some none = none
if_some (some s) = if_given s

-- _item
unfoldable pub rss_item : (Instant → String) → Article → Option RssItem
rss_item rfc a = elim a.published_at [
  | none ↦ none
  | some t ↦ some (record {
    title = a.title;
    link = a.url;
    guid = a.url;
    description = a.content;
    pub_date = rfc t;
    category = if_some a.category;
    source = if_given a.source;
  })
]

-- lastBuildDate: the date of the first item.
unfoldable pub last_build_of : List RssItem → Option String
last_build_of [] = none
last_build_of (item ∷ items) = if_given item.pub_date

-- _feed
unfoldable pub rss_channel : RssPublisher → List RssItem → RssChannel
unfolding last_build_of
rss_channel p items = record {
  title = p.title;
  link = if p.link == "" then p.feed_url else p.link;
  description = p.description;
  language = if_given p.language;
  self_link = if_given p.feed_url;
  last_build = last_build_of items;
  items = take p.max_items items;
}

-- The file: missing, not to be read, not XML, XML without a channel, or a feed.
pub data RssFile : Type 0 where
  no_file unreadable malformed no_channel : RssFile
  holds : RssChannel → RssFile

-- _read_items: `none` is the ParseError of a malformed file, a SyntaxError that nothing catches.
unfoldable pub read_items : RssFile → Option (List RssItem)
read_items malformed = none
read_items (holds c) = some c.items
read_items _ = some []

abbrev pub accepted_result : String → String → PublishResult
accepted_result destination id = record {
  success = true;
  destination = destination;
  external_id = some id;
  error = none;
  skipped = false;
}

-- publish: `none` is an exception.
unfoldable pub publish_rss :
    (Instant → String) → RssPublisher → Article → RssFile → Option (PublishResult × RssFile)
unfolding rss_item rss_channel read_items
publish_rss rfc p a file =
    if not p.has_output then some (accepted_result "rss" a.url, file) else elim (read_items file) [
      | none ↦ none
      | some items ↦ elim (rss_item rfc a) [
        | none ↦ none
        | some new ↦ some (
          accepted_result "rss" a.url,
          holds (rss_channel p (insert_item (λ (i : RssItem). i.guid) new items)),
        )
      ]
    ]

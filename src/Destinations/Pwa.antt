-- ===== src/Destinations/Pwa.antt =====
-- publishing/pwa.py: the JSON Feed. The file is the object that json writes and reads back; `iso` is
-- `datetime.isoformat`.
use yasin_press_rewrite.Base.{
  ℕ, String, Bool, not, List, [], ◌∷◌, Option, none, some, max, take, ◌==◌, string_eq,
  if◌then◌else◌,
}
use yasin_press_rewrite.Models.{Instant, Article, PublishResult}
use yasin_press_rewrite.Destinations.Items.{insert_item}
use yasin_press_rewrite.Destinations.Rss.{if_given, accepted_result}

pub record PwaItem : Type 0 where
  pub id : String
  pub url : String
  pub title : String
  pub content_text : String
  pub date_published : String
  pub tags : List String
  pub date_modified : Option String
  pub author : Option String

pub record PwaFeed : Type 0 where
  pub title : String
  pub language : String
  pub home_page_url : Option String
  pub feed_url : Option String
  pub items : List PwaItem

pub record PwaPublisher : Type 0 where
  pub has_output : Bool
  pub title : String
  pub home_page_url : String
  pub feed_url : String
  pub language : String
  pub max_items : ℕ

unfoldable pub pwa_publisher : PwaPublisher → PwaPublisher
pwa_publisher p = record p { max_items = max 1 p.max_items }

-- `[article.category] if article.category else []`
abbrev tags_of : Option String → List String
tags_of none = []
tags_of (some c) = if c == "" then [] else c ∷ []

unfoldable pub pwa_item : (Instant → String) → Article → Option PwaItem
pwa_item iso a = elim a.published_at [
  | none ↦ none
  | some t ↦ some (record {
    id = a.id;
    url = a.url;
    title = a.title;
    content_text = a.content;
    date_published = iso t;
    tags = tags_of a.category;
    date_modified = if a.ai_modified then some (iso a.received_at) else none;
    author = if_given a.source;
  })
]

unfoldable pub pwa_feed : PwaPublisher → List PwaItem → PwaFeed
pwa_feed p items = record {
  title = p.title;
  language = p.language;
  home_page_url = if_given p.home_page_url;
  feed_url = if_given p.feed_url;
  items = take p.max_items items;
}

-- The file: missing, not to be read as JSON, JSON but no object, an object without a list of items, or
-- a feed.
pub data PwaFile : Type 0 where
  no_file unreadable no_object no_list : PwaFile
  holds : PwaFeed → PwaFile

-- `none` is the AttributeError of `payload.get` on something that is no object.
unfoldable pub existing_items : PwaFile → Option (List PwaItem)
existing_items no_object = none
existing_items (holds f) = some f.items
existing_items _ = some []

unfoldable pub publish_pwa :
    (Instant → String) → PwaPublisher → Article → PwaFile → Option (PublishResult × PwaFile)
unfolding pwa_item pwa_feed existing_items
publish_pwa iso p a file =
    if not p.has_output
    then some (accepted_result "pwa" a.id, file)
    else elim (existing_items file) [
      | none ↦ none
      | some items ↦ elim (pwa_item iso a) [
        | none ↦ none
        | some new ↦ some (
          accepted_result "pwa" a.id,
          holds (pwa_feed p (insert_item (λ (i : PwaItem). i.id) new items)),
        )
      ]
    ]

-- ===== src/Destinations/Tests.antt =====
-- The feeds at concrete articles.
use yasin_press_rewrite.Base.{
  ◌≡◌, refl, ◌/◌, ◌*◌, String, Option, true, take, [], ◌∷◌, none, some, map, Distinct, string_eq,
}
use yasin_press_rewrite.Samples.{
  noon, iso, article, strokes, counted, counted-strokes, strokes_given,
}
use yasin_press_rewrite.Models.{Instant, Article}
use yasin_press_rewrite.Sources.Feed.{FeedReading, parse_date, parse_rss}
use yasin_press_rewrite.Base.{false, contains, nat_eq}
use yasin_press_rewrite.Database.Texts.{codes}
use yasin_press_rewrite.Destinations.Messages.{Wording, md_escape, render}
use yasin_press_rewrite.Destinations.Escaping.{
  read_from, is_plain_from, md_escape-read, render_directionless,
}
use yasin_press_rewrite.Destinations.Elements.{feed_element}
use yasin_press_rewrite.Destinations.Reading.{whole_seconds, article_back, parse_rss-rss_channel}
use yasin_press_rewrite.Destinations.Items.{newest}
use yasin_press_rewrite.Destinations.Rss.{RssItem, RssPublisher, rss_item, rss_channel, publish_rss}
use yasin_press_rewrite.Destinations.Pwa.{PwaItem, PwaPublisher, pwa_item, publish_pwa}
use yasin_press_rewrite.Destinations.Feeds.{
  guid, news_id, rss_file, pwa_file, publish_each, feeds_newest,
}

abbrev rss : RssPublisher
rss = record {
  feed_url = "";
  has_output = true;
  title = "YasinPress";
  link = "";
  description = "News";
  language = "fa";
  max_items = 100;
}

abbrev pwa : PwaPublisher
pwa = record {
  has_output = true;
  title = "YasinPress";
  home_page_url = "";
  feed_url = "";
  language = "fa";
  max_items = 100;
}

abbrev rss_story : RssItem
rss_story = record {
  title = "Title";
  link = "https://example.org/a";
  guid = "https://example.org/a";
  description = "Text";
  pub_date = "2026-01-01T12:00:00+00:00";
  category = none;
  source = some "irna";
}

abbrev pwa_story : PwaItem
pwa_story = record {
  id = "a";
  url = "https://example.org/a";
  title = "Title";
  content_text = "Text";
  date_published = "2026-01-01T12:00:00+00:00";
  tags = [];
  date_modified = none;
  author = some "irna";
}

feeds_newest_example :
    (publish_each (publish_rss iso rss) (article "a" ∷ article "a" ∷ []) (rss_file rss [])
      ≡ some (rss_file rss (newest guid (rss_story ∷ rss_story ∷ []) [])))
    × (publish_each (publish_pwa iso pwa) (article "a" ∷ article "a" ∷ []) (pwa_file pwa [])
        ≡ some (pwa_file pwa (newest news_id (pwa_story ∷ pwa_story ∷ []) [])))
    × Distinct (map guid (newest guid (rss_story ∷ rss_story ∷ []) []))
    × Distinct (map news_id (newest news_id (pwa_story ∷ pwa_story ∷ []) []))
unfolding rss_item pwa_item
feeds_newest_example =
    feeds_newest iso iso rss pwa (article "a" ∷ article "a" ∷ []) (rss_story ∷ rss_story ∷ []) []
      (pwa_story ∷ pwa_story ∷ []) [] refl refl (refl, (refl, tt)) (refl, (refl, tt)) tt tt

-- A reader of whole seconds, written in strokes.
abbrev seconds_read : String → Option Instant
seconds_read s = elim (counted s) [ none ↦ none | some n ↦ some (n * 1_000_000) ]

abbrev reading : FeedReading
reading = record { strip = λ s. s; read_rfc = seconds_read; read_iso = λ s. none }

abbrev seconds_written : Instant → String
seconds_written t = strokes (t / 1_000_000)

reading_reads :
    (t : Instant) → parse_date reading (some (seconds_written t)) ≡ some (whole_seconds t)
unfolding parse_date
reading_reads t = rw (strokes_given (t / 1_000_000), counted-strokes (t / 1_000_000)) refl

abbrev told : Article
told = record (article "a") { published_at = some 3_400_000 }

abbrev told_item : RssItem
told_item = record rss_story { pub_date = strokes 3 }

parse_rss-rss_channel_example :
    parse_rss reading noon (feed_element (rss_channel rss (told_item ∷ [])))
    ≡ take 100 (map (article_back reading noon) (told ∷ []))
unfolding rss_item
parse_rss-rss_channel_example =
    parse_rss-rss_channel reading noon seconds_written reading_reads rss (told ∷ [])
      (told_item ∷ []) (refl, tt) ((refl, refl), tt)

md_escape-read_example :
    (read_from false (md_escape (codes "a*b")) ≡ codes "a*b")
    × (is_plain_from false (md_escape (codes "a*b")) ≡ true)
md_escape-read_example = md_escape-read (codes "a*b")

-- Words with a left-to-right mark in each content.
abbrev words : Wording
words = record {
  breaking_line = codes "*Breaking*";
  ai_line = codes "_AI_";
  unknown_time = codes "Time: unknown";
  updated_label = codes "Updated: ";
  published_label = codes "Time: ";
  clock = [];
  source_label = codes "Source: ";
  unnamed_source = codes "source";
  clean_title = codes;
  clean_content = λ s. 8206 ∷ codes s;
  pretty = λ t. codes "noon";
  hostname = λ url. some (codes "www.example.org");
  severe = λ a. false;
}

render_directionless_example : contains 8206 (render words noon (article "a")) ≡ false
unfolding contains
render_directionless_example = render_directionless words noon (article "a") 8206 refl

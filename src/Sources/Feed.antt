-- ===== src/Sources/Feed.antt =====
-- sources/feed.py: parse_rss on a parsed document, and fetch/feed.py: FeedFetcher. `str.strip` and the
-- readers of dates, with the change to UTC, are parameters.
use yasin_press_rewrite.Base.{
  String, Bool, true, false, ◌&&◌, ◌||◌, not, List, [], ◌∷◌, ◌++◌, Option, none, some, map, ◌==◌,
  string_eq, if◌then◌else◌,
}
use yasin_press_rewrite.Models.{Instant}
use yasin_press_rewrite.Pipeline.Articles.{FeedItem}
use yasin_press_rewrite.Sources.Xml.{
  Element, tag, children, attribute, find, findtext, findall, find_below,
}

pub record FeedReading : Type 0 where
  pub strip : String → String
  pub read_rfc : String → Option Instant
  pub read_iso : String → Option Instant

-- `a or b` of two texts that may be None.
abbrev pub or_text : Option String → Option String → Option String
or_text none b = b
or_text (some s) b = if s == "" then b else some s

-- A text with a default.
abbrev pub text_or_empty : Option String → String
text_or_empty none = ""
text_or_empty (some s) = s

-- `not raw or not raw.strip()`, and the parse that follows.
unfoldable pub parse_date : FeedReading → Option String → Option Instant
parse_date r none = none
parse_date r (some raw) =
    if (raw == "") || (r.strip raw == "")
    then none
    else elim (r.read_rfc (r.strip raw)) [ some t ↦ some t | none ↦ r.read_iso (r.strip raw) ]

-- What the loop of parse_rss reads of an element before it strips the texts.
pub record RawItem : Type 0 where
  pub title : String
  pub url : String
  pub content : String
  pub published : Option String
  pub updated : Option String

unfoldable pub is_atom : Element → Bool
unfolding tag
is_atom e = tag e == "{http://www.w3.org/2005/Atom}entry"

unfoldable pub raw_item : Element → RawItem
unfolding is_atom find findtext attribute
raw_item e =
    if is_atom e
    then record {
      title = text_or_empty (findtext "{http://www.w3.org/2005/Atom}title" e);
      url = elim (find "{http://www.w3.org/2005/Atom}link" e) [
        | none ↦ ""
        | some link ↦ text_or_empty (attribute "href" link)
      ];
      content = text_or_empty (
          or_text (findtext "{http://www.w3.org/2005/Atom}content" e)
            (findtext "{http://www.w3.org/2005/Atom}summary" e));
      published = findtext "{http://www.w3.org/2005/Atom}published" e;
      updated = findtext "{http://www.w3.org/2005/Atom}updated" e;
    }
    else record {
      title = text_or_empty (findtext "title" e);
      url = text_or_empty (findtext "link" e);
      content = text_or_empty (findtext "description" e);
      published = or_text (findtext "pubDate" e) (findtext "published" e);
      updated = findtext "updated" e;
    }

-- The publication time, or the update time, or the epoch.
unfoldable pub published_or_epoch : Option Instant → Option Instant → Instant
published_or_epoch (some t) updated = t
published_or_epoch none (some t) = t
published_or_epoch none none = 0

-- The URL and the type of the enclosure, if it has a URL that is not empty; or else of the media
-- content, where a child without children of its own counts as false, so that the first one below the
-- item is taken instead.
abbrev given : Option String → Bool
given none = false
given (some s) = not (s == "")

abbrev has_children : Element → Bool
has_children e = elim (children e) [ [] ↦ false | c ∷ cs ↦ true ]

unfoldable pub media_content : Element → Option Element
unfolding find find_below
media_content e = elim (find "{http://search.yahoo.com/mrss/}content" e) [
  | none ↦ find_below "{http://search.yahoo.com/mrss/}content" e
  | some c ↦
      if has_children c then some c else find_below "{http://search.yahoo.com/mrss/}content" e
]

unfoldable pub media_of : Element → Option String × Option String
unfolding find media_content attribute
media_of e =
    let (url, type) = enclosed (find "enclosure" e) in
    if given url then (url, type) else elim (media_content e) [
      | none ↦ (url, type)
      | some c ↦ (attribute "url" c, attribute "type" c)
    ]
  where
    enclosed : Option Element → Option String × Option String
    enclosed none = (none, none)
    enclosed (some c) = (attribute "url" c, attribute "type" c)

-- One round of the loop: an item, unless its title or its URL is empty.
unfoldable pub read_item : FeedReading → Instant → Element → List FeedItem
unfolding raw_item parse_date published_or_epoch media_of
read_item r now e =
    let raw : RawItem = raw_item e in
    let updated : Option Instant = parse_date r raw.updated in
    if not (r.strip raw.title == "") && not (r.strip raw.url == "")
    then record {
      title = r.strip raw.title;
      url = r.strip raw.url;
      content = r.strip raw.content;
      published_at = some (published_or_epoch (parse_date r raw.published) updated);
      source = "";
      media_url = (media_of e).0;
      media_type = (media_of e).1;
      updated_at = updated;
      fetched_at = now;
    }
      ∷ []
    else []

unfoldable pub read_elements : FeedReading → Instant → List Element → List FeedItem
unfolding read_item
read_elements r now [] = []
read_elements r now (e ∷ es) = read_item r now e ++ read_elements r now es

-- parse_rss, from `ET.fromstring(xml_text)` on.
unfoldable pub parse_rss : FeedReading → Instant → Element → List FeedItem
unfolding read_elements findall
parse_rss r now root =
    read_elements r now (findall "item" root ++ findall "{http://www.w3.org/2005/Atom}entry" root)

pub record FeedFetchResult : Type 0 where
  pub url : String
  pub source : String
  pub items : List FeedItem
  pub error : Option String

-- What fetching and `ET.fromstring` give for a URL: a document, or the text of an exception with its type.
pub data Document : Type 0 where
  document : Element → Document
  broken : String → Document

-- FeedFetcher: its `fetch`, and `urlparse(url).hostname`.
pub record FeedFetcher : Type 0 where
  pub reading : FeedReading
  pub fetch : String → Document
  pub hostname : String → Option String

-- `hostname or url`
abbrev pub source_name : FeedFetcher → String → String
source_name f url = elim (f.hostname url) [ none ↦ url | some h ↦ if h == "" then url else h ]

-- The item that fetch_url makes of a parsed one: a new FeedItem of five fields only.
unfoldable pub refetched : Instant → String → FeedItem → FeedItem
refetched now source i = record {
  title = i.title;
  url = i.url;
  content = i.content;
  published_at = i.published_at;
  source = source;
  media_url = none;
  media_type = none;
  updated_at = none;
  fetched_at = now;
}

unfoldable pub fetch_url : FeedFetcher → Instant → String → FeedFetchResult
unfolding parse_rss refetched
fetch_url f now url = elim (f.fetch url) [
  | broken error ↦ record { url = url; source = source_name f url; items = []; error = some error }
  | document root ↦ record {
    url = url;
    source = source_name f url;
    items = map (refetched now (source_name f url)) (parse_rss f.reading now root);
    error = none;
  }
]

unfoldable pub fetch_many : FeedFetcher → Instant → List String → List FeedFetchResult
unfolding fetch_url
fetch_many f now urls = map (fetch_url f now) urls

-- The items of all results, which `execute` of submit_urls hands to the application.
unfoldable pub fetched_items : List FeedFetchResult → List FeedItem
fetched_items [] = []
fetched_items (r ∷ rs) = r.items ++ fetched_items rs

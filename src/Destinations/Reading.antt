-- ===== src/Destinations/Reading.antt =====
-- The parser of feeds (sources/feed.py) reads the application's own RSS file (publishing/rss.py).
use mathlib.Core.List.{append_assoc, append-nil}
use yasin_press_rewrite.Base.{
  ℕ, zero, suc, ◌/◌, ◌*◌, inl, inr, take, subst, arith, Option-cases, ◌≡◌, refl, ap, ◌∙◌, sym,
  String, Bool, true, false, List, [], ◌∷◌, ◌++◌, Option, none, some, map, All, ◌==◌, string_eq,
  if◌then◌else◌, first,
}
use yasin_press_rewrite.Models.{Instant, Article}
use yasin_press_rewrite.Pipeline.Articles.{FeedItem}
use yasin_press_rewrite.Sources.Xml.{
  Element, element, elements, to_list, tag, children, find, findtext, element_text, findall,
  find_among, find_below,
}
use yasin_press_rewrite.Sources.Feed.{
  FeedReading, parse_date, raw_item, is_atom, published_or_epoch, media_of, media_content,
  read_item, read_elements, parse_rss,
}
use yasin_press_rewrite.Destinations.Rss.{RssItem, RssChannel, RssPublisher, rss_item, rss_channel}
use yasin_press_rewrite.Destinations.Feeds.{IsItems}
use yasin_press_rewrite.Destinations.Elements.{item_element, channel_head, feed_element}

find_among-append :
    (name : String) (xs ys : List Element)
    → find_among name (elements (xs ++ ys))
      ≡ find_among name (elements xs) ++ find_among name (elements ys)
unfolding find_among elements
find_among-append name [] ys = refl
find_among-append name (element t a x es ∷ xs) ys =
    rw (find_among-append name xs ys) (sym (append_assoc _ (find_among name (elements xs)) _))

raw_with :
    (i : RssItem) (category source : Option String)
    → raw_item (item_element (record i { category = category; source = source })) ≡ record {
      title = i.title;
      url = i.link;
      content = i.description;
      published = if i.pub_date == "" then none else some i.pub_date;
      updated = none;
    }
unfolding raw_item is_atom tag item_element find findtext children to_list element_text elements
    first
raw_with i none none = refl
raw_with i none (some s) = refl
raw_with i (some c) none = refl
raw_with i (some c) (some s) = refl

media_with :
    (i : RssItem) (category source : Option String)
    → media_of (item_element (record i { category = category; source = source })) ≡ (none, none)
unfolding media_of media_content item_element find children to_list elements first find_below
    findall find_among tag
media_with i none none = refl
media_with i none (some s) = refl
media_with i (some c) none = refl
media_with i (some c) (some s) = refl

-- No item stands in an item, and no entry of Atom.
item_alone :
    (i : RssItem) (category source : Option String)
    → (find_among "item"
          (elements (item_element (record i { category = category; source = source }) ∷ []))
        ≡ item_element (record i { category = category; source = source }) ∷ [])
      × (find_among "{http://www.w3.org/2005/Atom}entry"
            (elements (item_element (record i { category = category; source = source }) ∷ []))
          ≡ [])
unfolding find_among elements item_element
item_alone i none none = (refl, refl)
item_alone i none (some s) = (refl, refl)
item_alone i (some c) none = (refl, refl)
item_alone i (some c) (some s) = (refl, refl)

head_bare :
    (c : RssChannel) (language link last : Option String)
    → (find_among "item" (
          elements
            (channel_head (record c { language = language; self_link = link; last_build = last })))
        ≡ [])
      × (find_among "{http://www.w3.org/2005/Atom}entry" (
            elements (
              channel_head (record c { language = language; self_link = link; last_build = last })))
          ≡ [])
unfolding find_among elements channel_head
head_bare c none none none = (refl, refl)
head_bare c none none (some b) = (refl, refl)
head_bare c none (some l) none = (refl, refl)
head_bare c none (some l) (some b) = (refl, refl)
head_bare c (some g) none none = (refl, refl)
head_bare c (some g) none (some b) = (refl, refl)
head_bare c (some g) (some l) none = (refl, refl)
head_bare c (some g) (some l) (some b) = (refl, refl)

items_alone :
    (items : List RssItem)
    → (find_among "item" (elements (map item_element items)) ≡ map item_element items)
      × (find_among "{http://www.w3.org/2005/Atom}entry" (elements (map item_element items)) ≡ [])
unfolding find_among elements
items_alone [] = (refl, refl)
items_alone (i ∷ items) =
    let (here, no_entry) = item_alone i i.category i.source in
    let (rest, no_entries) = items_alone items in
    (
      find_among-append "item" (item_element i ∷ []) (map item_element items)
          ∙ rw (here, rest) refl,
      find_among-append "{http://www.w3.org/2005/Atom}entry" (item_element i ∷ [])
            (map item_element items)
          ∙ rw (no_entry, no_entries) refl,
    )

findall-feed_element :
    (c : RssChannel)
    → (findall "item" (feed_element c) ≡ map item_element c.items)
      × (findall "{http://www.w3.org/2005/Atom}entry" (feed_element c) ≡ [])
unfolding findall find_among elements feed_element
findall-feed_element c =
    let (no_item, no_entry) = head_bare c c.language c.self_link c.last_build in
    let (all_items, no_entries) = items_alone c.items in
    (
      append-nil _
          ∙ find_among-append "item" (channel_head c) (map item_element c.items)
          ∙ rw (no_item, all_items) refl,
      append-nil _
          ∙ find_among-append "{http://www.w3.org/2005/Atom}entry" (channel_head c)
              (map item_element c.items)
          ∙ rw (no_entry, no_entries) refl,
    )

-- What the parser makes of an item of the file.
abbrev read_back : FeedReading → Instant → RssItem → FeedItem
read_back r now i = record {
  title = r.strip i.title;
  url = r.strip i.link;
  content = r.strip i.description;
  published_at = some (published_or_epoch (parse_date r (some i.pub_date)) none);
  source = "";
  media_url = none;
  media_type = none;
  updated_at = none;
  fetched_at = now;
}

abbrev IsShown : FeedReading → RssItem → Type 0
IsShown r i = ((r.strip i.title == "") ≡ false) × ((r.strip i.link == "") ≡ false)

module _ (r : FeedReading) (now : Instant) where
  dated : (s : String) → parse_date r (if s == "" then none else some s) ≡ parse_date r (some s)
  unfolding parse_date
  dated s = by_blank (s == "") refl
    where
      by_blank :
          (b : Bool)
          → (s == "") ≡ b
          → parse_date r (if b then none else some s) ≡ parse_date r (some s)
      by_blank true e = rw e refl
      by_blank false e = refl

  read_item-item_element :
      (i : RssItem) → IsShown r i → read_item r now (item_element i) ≡ read_back r now i ∷ []
  unfolding read_item
  read_item-item_element i (t, l) =
      rw (raw_with i i.category i.source, media_with i i.category i.source, dated i.pub_date, t, l)
        refl

  read_elements-items :
      (items : List RssItem)
      → All (IsShown r) items
      → read_elements r now (map item_element items) ≡ map (read_back r now) items
  unfolding read_elements
  read_elements-items [] h = refl
  read_elements-items (i ∷ items) (h, more) =
      rw (read_item-item_element i h, read_elements-items items more) refl

  parse_rss-feed_element :
      (c : RssChannel)
      → All (IsShown r) c.items
      → parse_rss r now (feed_element c) ≡ map (read_back r now) c.items
  unfolding parse_rss
  parse_rss-feed_element c h =
      let (all_items, no_entries) = findall-feed_element c in
      rw (all_items, no_entries)
        (ap (read_elements r now) (append-nil (map item_element c.items))
          ∙ read_elements-items c.items h)

-- An instant without its fraction of a second, which the format of RFC 2822 leaves out.
abbrev pub whole_seconds : Instant → Instant
whole_seconds t = t / 1_000_000 * 1_000_000

abbrev pub back_at : Option Instant → Option Instant
back_at none = none
back_at (some t) = some (whole_seconds t)

-- The feed item that an article comes back as.
abbrev pub article_back : FeedReading → Instant → Article → FeedItem
article_back r now a = record {
  title = r.strip a.title;
  url = r.strip a.url;
  content = r.strip a.content;
  published_at = back_at a.published_at;
  source = "";
  media_url = none;
  media_type = none;
  updated_at = none;
  fetched_at = now;
}

abbrev pub HasTexts : FeedReading → Article → Type 0
HasTexts r a = ((r.strip a.title == "") ≡ false) × ((r.strip a.url == "") ≡ false)

All-take : {A : Type 0} (P : A → Type 0) (n : ℕ) (xs : List A) → All P xs → All P (take n xs)
All-take P zero xs h = tt
All-take P (suc n) [] h = tt
All-take P (suc n) (x ∷ xs) (h, more) = (h, All-take P n xs more)

map-take : {A B : Type 0} (f : A → B) (n : ℕ) (xs : List A) → map f (take n xs) ≡ take n (map f xs)
map-take f zero xs = refl
map-take f (suc n) [] = refl
map-take f (suc n) (x ∷ xs) = rw (map-take f n xs) refl

module _ (r : FeedReading) (now : Instant) (rfc : Instant → String)
    (reads : (t : Instant) → parse_date r (some (rfc t)) ≡ some (whole_seconds t)) where
  item_back :
      (a : Article) (i : RssItem)
      → rss_item rfc a ≡ some i
      → HasTexts r a
      → IsShown r i × (read_back r now i ≡ article_back r now a)
  unfolding rss_item published_or_epoch
  item_back a i e h = elim (Option-cases a.published_at) [
    | inl f ↦ absurd (none_some (rw (f) at e))
    | inr (t, f) ↦
        subst (λ j. IsShown r j × (read_back r now j ≡ article_back r now a))
          (same_item _ i (rw (f) at e)) (h, rw (reads t, f) refl)
  ]
    where
      none_some : {j : RssItem} → none ≡ some j → ⊥
      none_some e = ground (arith, e)

      same_item : (x y : RssItem) → some x ≡ some y → x ≡ y
      same_item x y e = ground (arith, e)

  items_back :
      (articles : List Article) (items : List RssItem)
      → IsItems (rss_item rfc) articles items
      → All (HasTexts r) articles
      → All (IsShown r) items × (map (read_back r now) items ≡ map (article_back r now) articles)
  items_back [] [] e h = (tt, refl)
  items_back [] (i ∷ items) e h = absurd e
  items_back (a ∷ articles) [] e h = absurd e
  items_back (a ∷ articles) (i ∷ items) (e, more) (h, others) =
      let (shown, same) = item_back a i e h in
      let (all_shown, all_same) = items_back articles items more others in
      ((shown, all_shown), rw (same, all_same) refl)

  -- Where the dates that the RSS publisher writes are read back without their fractions of a
  -- second, and no title and no URL is blank, the parser of feeds reads the feed of any articles
  -- with a date as their titles, URLs, contents, without the white space around them, and dates,
  -- cut off at the second, in the order of the feed, the first max_items of them.
  pub parse_rss-rss_channel :
      (p : RssPublisher) (articles : List Article) (items : List RssItem)
      → IsItems (rss_item rfc) articles items
      → All (HasTexts r) articles
      → parse_rss r now (feed_element (rss_channel p items))
        ≡ take p.max_items (map (article_back r now) articles)
  unfolding rss_channel
  parse_rss-rss_channel p articles items e h =
      let (shown, same) = items_back articles items e h in
      parse_rss-feed_element r now (rss_channel p items)
        (All-take (IsShown r) p.max_items items shown)
      ∙ map-take (read_back r now) p.max_items items
      ∙ ap (take p.max_items) same

-- ===== src/Destinations/Elements.antt =====
-- publishing/rss.py: the elements of a feed, of an item (_item) and of the channel (_feed).
use yasin_press_rewrite.Base.{String, List, [], ◌∷◌, ◌++◌, Option, none, some, map, string_eq}
use yasin_press_rewrite.Sources.Xml.{Element, element, no_elements, elements}
use yasin_press_rewrite.Destinations.Rss.{RssItem, RssChannel}

-- `SubElement(parent, name).text = text`
abbrev pub leaf : String → String → Element
leaf name text = element name [] (some text) no_elements

-- The same, if there is a text.
abbrev pub leaf_if : String → Option String → List Element
leaf_if name none = []
leaf_if name (some text) = leaf name text ∷ []

unfoldable pub item_element : RssItem → Element
item_element i = element "item" [] none (
    elements (
      leaf "title" i.title
      ∷ leaf "link" i.link
      ∷ element "guid" (("isPermaLink", "true") ∷ []) (some i.guid) no_elements
      ∷ leaf "description" i.description
      ∷ leaf "pubDate" i.pub_date
      ∷ (leaf_if "category" i.category ++ leaf_if "source" i.source)))

abbrev pub self_links : Option String → List Element
self_links none = []
self_links (some url) =
    element "{http://www.w3.org/2005/Atom}link"
      (("href", url) ∷ ("rel", "self") ∷ ("type", "application/rss+xml") ∷ []) none no_elements
    ∷ []

-- The children of the channel before its items.
unfoldable pub channel_head : RssChannel → List Element
channel_head c =
    leaf "title" c.title
    ∷ leaf "link" c.link
    ∷ leaf "description" c.description
    ∷ (leaf_if "language" c.language
        ++ (self_links c.self_link ++ leaf_if "lastBuildDate" c.last_build))

unfoldable pub feed_element : RssChannel → Element
unfolding item_element channel_head
feed_element c = element "rss" (("version", "2.0") ∷ []) none (
    elements
      (element "channel" [] none (elements (channel_head c ++ map item_element c.items)) ∷ []))

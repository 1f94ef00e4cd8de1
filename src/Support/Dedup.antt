-- ===== src/Support/Dedup.antt =====
-- pipeline/dedup.py: content_key and unique_items. The hash of an item without a URL is a parameter.
use yasin_press_rewrite.Base.{String, List, [], ◌∷◌, contains, add, string_eq, ◌==◌, if◌then◌else◌}
use yasin_press_rewrite.Pipeline.Articles.{FeedItem}

unfoldable pub content_key : (String → String) → (FeedItem → String) → FeedItem → String
content_key strip digest item = if item.url == "" then digest item else strip item.url

-- The loop, with the keys that were seen.
unfoldable pub unique_from : (FeedItem → String) → List String → List FeedItem → List FeedItem
unique_from key seen [] = []
unique_from key seen (item ∷ items) =
    let rest = unique_from key (add (key item) seen) items in
    if contains (key item) seen then unique_from key seen items else item ∷ rest

unfoldable pub unique_items : (FeedItem → String) → List FeedItem → List FeedItem
unfolding unique_from
unique_items key items = unique_from key [] items

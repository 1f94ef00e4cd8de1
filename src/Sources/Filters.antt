-- ===== src/Sources/Filters.antt =====
-- sources/filters.py: KeywordFilter. `lower` is `str.lower`, and `in_text word text` is `word in text`.
use Prim.Native.String.{◌++◌}
use yasin_press_rewrite.Base.{
  String, Bool, true, ◌&&◌, ◌||◌, not, List, map, any, to_set, string_eq,
}
use yasin_press_rewrite.Pipeline.Articles.{FeedItem}

pub record KeywordFilter : Type 0 where
  pub required : List String
  pub blocked : List String

unfoldable pub keyword_filter : (String → String) → List String → List String → KeywordFilter
keyword_filter lower required blocked = record {
  required = to_set (map lower required);
  blocked = to_set (map lower blocked);
}

unfoldable pub allow :
    (String → String) → (String → String → Bool) → KeywordFilter → FeedItem → Bool
allow lower in_text f item =
    let text : String = lower (item.title ++ (" " ++ item.content)) in
    (not (any (λ (w : String). true) f.required) || any (λ w. in_text w text) f.required)
    && not (any (λ w. in_text w text) f.blocked)

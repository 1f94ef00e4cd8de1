-- ===== src/Ai/Enrichment.antt =====
-- processing/enrichment.py: ArticleEnricher.
use yasin_press_rewrite.Base.{
  String, Bool, true, false, List, [], ◌∷◌, Option, none, some, Dict, put, string_eq, ◌==◌,
  if◌then◌else◌,
}
use yasin_press_rewrite.Models.{Article, Value, text, flag}
use yasin_press_rewrite.Ai.Providers.{AiResult, text_or}

pub record EnrichmentResult : Type 0 where
  pub article : Article
  pub ai_success : Bool
  pub provider : String
  pub error : Option String

-- _with_ai
unfoldable pub with_ai : Article → String → Bool → Option String → Article
with_ai a ai_state ai_modified ai_error = record a {
  lifecycle_state = "processed";
  ai_state = ai_state;
  ai_error = ai_error;
  ai_modified = ai_modified;
}

-- `metadata.update(more)`
unfoldable pub update : List (String × Value) → Dict String Value → Dict String Value
update [] metadata = metadata
update ((key, value) ∷ more) metadata = update more (put key value metadata)

-- The key is set if there is a value.
unfoldable pub put_some : String → Option String → Dict String Value → Dict String Value
put_some key none metadata = metadata
put_some key (some value) metadata = put key (text value) metadata

unfoldable pub merged_metadata : AiResult → Dict String Value → Dict String Value
unfolding update put_some
merged_metadata r metadata = put_some "ai_priority" r.priority (
    put_some "ai_category" r.category (
      put_some "ai_summary" r.summary (
        put "ai_breaking" (flag r.breaking)
          (put "ai_provider" (text r.provider) (update r.metadata metadata)))))

-- `result.category or article.category`
abbrev category_of : Option String → Option String → Option String
category_of none old = old
category_of (some new) old = if new == "" then old else some new

unfoldable pub rewritten : AiResult → Article → Article
unfolding merged_metadata
rewritten r a = record a {
  title = text_or r.title a.title;
  content = text_or r.content a.content;
  category = category_of r.category a.category;
  lifecycle_state = "processed";
  ai_state = "rewritten";
  ai_error = none;
  ai_modified = true;
  source_metadata = merged_metadata r a.source_metadata;
}

-- `ai` is the enricher that ArticleEnricher holds, if any.
unfoldable pub enrich : Bool → Option (Article → AiResult) → Article → EnrichmentResult
unfolding with_ai rewritten
enrich fallback_on_error none a = record {
  article = with_ai a "disabled" false none;
  ai_success = false;
  provider = "none";
  error = none;
}
enrich fallback_on_error (some ai) a =
    let r = ai a in
    if r.success
    then record { article = rewritten r a; ai_success = true; provider = r.provider; error = none }
    else record {
      article =
          with_ai a (if fallback_on_error then "fallback_original" else "failed") false r.error;
      ai_success = false;
      provider = r.provider;
      error = r.error;
    }

-- ===== src/Pipeline/Items.antt =====
-- pipeline/runtime.py, processing/pipeline.py, validator.py and classifier.py: from feed items to valid
-- articles. HTML cleaning, the test for an absolute URL and the hits of keywords are parameters.
use yasin_press_rewrite.Base.{
  ℕ, ◌+◌, String, Bool, true, false, ◌&&◌, not, List, [], ◌∷◌, Option, none, some, ltb, ◌==◌,
  string_eq, if◌then◌else◌,
}
use yasin_press_rewrite.Models.{Instant, Article, news_timestamp}
use yasin_press_rewrite.Database.Articles as Table
use yasin_press_rewrite.Ai.Providers.{AiResult}
use yasin_press_rewrite.Ai.Enrichment.{EnrichmentResult, enrich}
use yasin_press_rewrite.Pipeline.Articles.{FeedItem, Texts, normalize, is_duplicate, is_fresh}
use yasin_press_rewrite.Pipeline.Queueing.{Signals, PriorityResult, calculate_priority, is_breaking}

-- clean_html, `str.startswith(("http://", "https://"))`, and what normalize does to texts.
pub record Cleaning : Type 0 where
  pub texts : Texts
  pub clean_html : String → String
  pub is_absolute : String → Bool

-- validate_article: whether it raises no ValueError.
unfoldable pub is_valid : Cleaning → Article → Bool
is_valid c a = not (a.title == "") && c.is_absolute a.url

-- The feed item of ArticlePipeline.process.
unfoldable pub cleaned : Cleaning → FeedItem → FeedItem
cleaned c item = record item {
  title = c.texts.strip item.title;
  url = c.texts.strip item.url;
  content = c.clean_html item.content;
}

unfoldable pub normalized : Cleaning → String → List Article → FeedItem → Article
unfolding cleaned
normalized c source rows item =
    let clean : FeedItem = cleaned c item in
    normalize c.texts clean (if item.source == "" then source else item.source) none
      (Table.get clean.url rows)

pub record PipelineResult : Type 0 where
  pub processed : ℕ
  pub rejected : ℕ
  pub articles : List Article

-- ArticlePipeline.process of pipeline/runtime.py; `duplicate` is its callback.
unfoldable pub process_feed :
    Cleaning → (Article → Bool) → Instant → String → List Article → List FeedItem → PipelineResult
unfolding normalized is_valid
process_feed c duplicate now source rows [] = record { processed = 0; rejected = 0; articles = [] }
process_feed c duplicate now source rows (item ∷ items) =
    let a : Article = normalized c source rows item in
    let rest : PipelineResult = process_feed c duplicate now source rows items in
    if duplicate a
    then rest
    else if not (is_valid c a)
    then record rest { rejected = rest.rejected + 1 }
    else record {
      processed = rest.processed + 1;
      rejected = rest.rejected;
      articles = record a { processed_at = some now } ∷ rest.articles;
    }

-- PersianClassifier.classify: the first category with the most hits.
unfoldable pub best_category :
    (List String → ℕ) → List (String × List String) → String × ℕ → String × ℕ
best_category hits [] best = best
best_category hits ((category, keywords) ∷ rules) (name, n) =
    best_category hits rules
      (if ltb n (hits keywords) then (category, hits keywords) else (name, n))

-- The settings of ArticlePipeline in processing/pipeline.py. `classify` gives the category of a title
-- and a content.
pub record Processing : Type 0 where
  pub cleaning : Cleaning
  pub signals : Signals
  pub classify : String → String → String
  pub max_age : ℕ
  pub ai : Option (Article → AiResult)

pub record ProcessedArticle : Type 0 where
  pub article : Article
  pub priority : PriorityResult
  pub breaking : Bool
  pub ai_success : Bool
  pub ai_provider : String
  pub ai_error : Option String

-- What a call does: nothing for old news and duplicates, an exception of the validation or of the
-- repository, or an article that is saved.
pub data ItemOutcome : Type 0 where
  dropped invalid_article integrity_error : ItemOutcome
  processed_article : ProcessedArticle → List Article → ItemOutcome

unfoldable pub prepared : Processing → Instant → Article → Article
prepared p now a = record a {
  title = p.cleaning.clean_html a.title;
  content = p.cleaning.clean_html a.content;
  category = some (p.classify a.title a.content);
  ai_modified = false;
  lifecycle_state = "processed";
  ai_state = "none";
  ai_error = none;
  source_metadata = [];
  processed_at = some now;
}

unfoldable pub process_item : Processing → Instant → String → List Article → FeedItem → ItemOutcome
unfolding prepared is_valid
process_item p now source rows item =
    let a : Article = normalize p.cleaning.texts item source none (Table.get item.url rows) in
    let ready : Article = prepared p now a in
    let enriched : EnrichmentResult = enrich true p.ai ready in
    if not (is_fresh now p.max_age (news_timestamp a))
    then dropped
    else if is_duplicate a rows
    then dropped
    else if not (is_valid p.cleaning ready)
    then invalid_article
    else elim (Table.save enriched.article rows) [
      | none ↦ integrity_error
      | some after ↦
          processed_article
            (record {
              article = enriched.article;
              priority = calculate_priority p.signals ready;
              breaking = is_breaking now a.published_at (p.signals.severe a);
              ai_success = enriched.ai_success;
              ai_provider = enriched.provider;
              ai_error = enriched.error;
            })
            after
    ]

-- ===== src/Pipeline/Direct.antt =====
-- ProcessingService without a publication queue: _enrich, _published_last_hour, and the branch of process
-- that publishes at once. The history and the keys of the orchestrator are those of the database.
use yasin_press_rewrite.Base.{
  ℕ, ◌-◌, String, Bool, true, false, ◌&&◌, List, [], ◌∷◌, ◌++◌, Option, none, some, any, map, not,
  ◌>>=◌, take, total, length, ◌==◌, string_eq, if◌then◌else◌,
}
use yasin_press_rewrite.Models.{Instant, Article, DeliveryRecord, PublishResult}
use yasin_press_rewrite.Database.{Db}
use yasin_press_rewrite.Database.Articles
use yasin_press_rewrite.Engine.Consumed.{is_recent}
use yasin_press_rewrite.Publishing.Reliability.{RetryPolicy}
use yasin_press_rewrite.Publishing.Orchestrator.{Destination, publish_all}
use yasin_press_rewrite.Ai.Providers.{AiResult}
use yasin_press_rewrite.Pipeline.Queueing.{undelivered}
use yasin_press_rewrite.Pipeline.FairBatch.{select_fair_batch}

-- `self.ai`: nothing, an object with `enrich`, or one with `rewrite` only.
pub data Rewriter : Type 0 where
  no_ai : Rewriter
  enriches : (Article → AiResult) → Rewriter
  rewrites : (String → String) → Rewriter

-- _enrich; `none` stands for an article whose title or content would be None.
unfoldable pub enrich_news : Rewriter → Article → Option Article
enrich_news no_ai a = some a
enrich_news (rewrites rewrite) a =
    some (record a { content = rewrite a.content; ai_state = "rewritten"; ai_error = none })
enrich_news (enriches ai) a =
    let r : AiResult = ai a in
    if not r.success then some (record a { ai_state = "failed"; ai_error = r.error }) else do
      title ← r.title
      content ← r.content
      some (record a {
        title = title;
        content = content;
        ai_state = if (title == a.title) && (content == a.content) then "fallback" else "rewritten";
        ai_error = none;
      })

-- _published_last_hour, of all the delivery records.
unfoldable pub published_last_hour : Instant → List DeliveryRecord → ℕ
published_last_hour now history = total (λ r. if is_recent now r then 1 else 0) history

-- What the loop has done: the results, the saved articles, and whether an IntegrityError of the
-- repository left it.
pub record Published : Type 0 where
  pub results : List PublishResult
  pub updated : List Article
  pub raised : Bool
  pub db : Db

-- The loop over the selected articles.
unfoldable pub publish_selected :
    (Instant → String) → RetryPolicy → Instant → List Destination → List Article → Db → Published
publish_selected iso policy now destinations [] db = record {
  results = [];
  updated = [];
  raised = false;
  db = db;
}
publish_selected iso policy now destinations (a ∷ more) db =
    let (results, mid) = publish_all iso policy now a destinations db in
    let published : Article = record a { published_to_channel_at = some now } in
    let unsaved : Published = publish_selected iso policy now destinations more mid in
    if any (λ (r : PublishResult). r.success) results
    then elim (Articles.save published mid.articles) [
      | none ↦ record { results = results; updated = []; raised = true; db = mid }
      | some rows ↦
          let rest : Published =
            publish_selected iso policy now destinations more (record mid { articles = rows }) in
          record rest { results = results ++ rest.results; updated = published ∷ rest.updated }
    ]
    else record unsaved { results = results ++ unsaved.results }

-- The branch of process: how many articles are left for later, and what was published.
unfoldable pub process_direct :
    (Instant → String)
    → RetryPolicy
    → (Article → Article)
    → Instant
    → ℕ
    → ℕ
    → List Destination
    → List Article
    → Db
    → ℕ × Published
unfolding publish_selected published_last_hour
process_direct iso policy enrich now max_age limit destinations articles db =
    let names : List String = map (λ (d : Destination). d.name) destinations in
    let left : List Article = undelivered enrich now max_age names db.keys articles in
    let available : ℕ = limit - published_last_hour now db.history in
    let selected : List Article = take available (select_fair_batch limit left) in
    (length left - length selected, publish_selected iso policy now destinations selected db)

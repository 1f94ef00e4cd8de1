-- ===== src/Processor/Select.antt =====
-- _recent_delivery_state and _select_new_articles.
use yasin_press_rewrite.Base.{
  ℕ, zero, suc, ◌+◌, ◌-◌, String, not, List, [], ◌∷◌, ◌++◌, none, some, leb, min, max, map, select,
  contains, length, sort_by, Dict, put, group_into, string_eq, nat_eq, if◌then◌else◌,
}
use yasin_press_rewrite.Models.{Instant, PublicationJob, DeliveryRecord}
use yasin_press_rewrite.Database.{Db}
use yasin_press_rewrite.Database.Articles
use yasin_press_rewrite.Engine.Consumed.{
  Counts, no_counts, count_of, tally, count_jobs, recent_successes, processing_jobs,
}

-- A delivery counts for the source of its article's row, if there is one.
unfoldable pub count_delivery : Db → DeliveryRecord → Counts → Counts
unfolding tally
count_delivery db r c =
    if contains r.article_id c.counted then c else elim (Articles.get r.article_id db.articles) [
      | some a ↦ tally a.source r.article_id c
      | none ↦ c
    ]

unfoldable pub count_deliveries : Db → List DeliveryRecord → Counts → Counts
unfolding count_delivery
count_deliveries db [] c = c
count_deliveries db (r ∷ rs) c = count_deliveries db rs (count_delivery db r c)

unfoldable pub cycle_counts : Instant → Db → Dict String ℕ
unfolding count_deliveries
cycle_counts now db =
    (count_jobs (processing_jobs now db)
      (count_deliveries db (recent_successes now db) no_counts)).by_source

-- What article_jobs, article_priority and article_source hold of a new article: its id, the highest
-- priority and the last source of its jobs, and the time of its oldest job.
pub record NewArticle : Type 0 where
  pub id : String
  pub priority : ℕ
  pub source : String
  pub created_at : Instant

unfoldable pub gather : String → PublicationJob → List PublicationJob → NewArticle
gather id first [] = record {
  id = id;
  priority = first.priority;
  source = first.source;
  created_at = first.created_at;
}
gather id first (j ∷ jobs) =
    let rest : NewArticle = gather id j jobs in
    record rest {
      priority = max first.priority rest.priority;
      created_at = min first.created_at rest.created_at;
    }

unfoldable pub gather_all : Dict String (List PublicationJob) → List NewArticle
unfolding gather
gather_all [] = []
gather_all ((id, []) ∷ d) = gather_all d
gather_all ((id, j ∷ jobs) ∷ d) = gather id j jobs ∷ gather_all d

-- The articles of the eligible jobs that do not take a slot yet.
unfoldable pub new_articles : List PublicationJob → List String → List NewArticle
unfolding gather_all
new_articles eligible published = gather_all (
    group_into (λ j. j.article_id) []
      (select (λ j. not (contains j.article_id published)) eligible))

-- One priority: the sources, each with the ids of its articles by age.
abbrev pub Sources : Type 0
Sources = Dict String (List String)

unfoldable pub by_age_ids : Dict String (List NewArticle) → Sources
by_age_ids [] = []
by_age_ids ((source, articles) ∷ d) =
    (source, map (λ a. a.id) (sort_by (λ a b. leb a.created_at b.created_at) articles))
    ∷ by_age_ids d

unfoldable pub sources_of : List (ℕ × List NewArticle) → List Sources
unfolding by_age_ids
sources_of [] = []
sources_of ((priority, articles) ∷ rest) =
    by_age_ids (group_into (λ a. a.source) [] articles) ∷ sources_of rest

-- by_priority, walked by `sorted(by_priority, reverse=True)`
unfoldable pub priorities : List NewArticle → List Sources
unfolding sources_of
priorities articles =
    sources_of (sort_by (λ p q. leb (q.0) (p.0)) (group_into (λ a. a.priority) [] articles))

-- What a turn gives: the selected ids, the sources that stay active, and selected_source_counts.
pub record Picked : Type 0 where
  pub given : List String
  pub active : Sources
  pub counts : Dict String ℕ

-- One turn of the `for` loop with `left` slots: a source that is at its limit or empty is removed, and
-- any other gives its oldest article. The loop breaks when no slot is left. An article has one
-- source and one priority, so that the set `selected` never gets an id twice.
unfoldable pub pick : ℕ → Dict String ℕ → ℕ → Sources → Dict String ℕ → Picked
pick limit base zero active counts = record { given = []; active = active; counts = counts }
pick limit base (suc left) [] counts = record { given = []; active = []; counts = counts }
pick limit base (suc left) ((source, []) ∷ active) counts = pick limit base (suc left) active counts
pick limit base (suc left) ((source, id ∷ ids) ∷ active) counts =
    let others : Picked = pick limit base (suc left) active counts in
    let rest : Picked =
      pick limit base left active (put source (count_of source counts + 1) counts) in
    if leb limit (count_of source base + count_of source counts)
    then others
    else record rest { given = id ∷ rest.given; active = (source, ids) ∷ rest.active }

-- The articles and sources that are left, of which each turn uses up one at least.
unfoldable pub load : Sources → ℕ
load [] = 0
load ((source, ids) ∷ active) = length ids + 1 + load active

-- The `while` loop, on fuel.
unfoldable pub picks :
    ℕ → ℕ → Dict String ℕ → ℕ → Sources → Dict String ℕ → List String × Dict String ℕ
unfolding pick
picks zero limit base left active counts = ([], counts)
picks (suc fuel) limit base zero active counts = ([], counts)
picks (suc fuel) limit base (suc left) [] counts = ([], counts)
picks (suc fuel) limit base (suc left) (s ∷ active) counts =
    let turn : Picked = pick limit base (suc left) (s ∷ active) counts in
    let (ids, after) =
      picks fuel limit base (suc left - length turn.given) turn.active turn.counts in
    (turn.given ++ ids, after)

-- The loop over the priorities.
unfoldable pub pick_levels : ℕ → Dict String ℕ → ℕ → List Sources → Dict String ℕ → List String
unfolding picks load
pick_levels limit base left [] counts = []
pick_levels limit base left (sources ∷ rest) counts =
    let (ids, after) = picks (load sources) limit base left sources counts in
    ids ++ pick_levels limit base (left - length ids) rest after

unfoldable pub select_new_articles :
    ℕ → List PublicationJob → List String → Dict String ℕ → ℕ → List String
unfolding new_articles priorities pick_levels
select_new_articles limit eligible published base available =
    pick_levels limit base available (priorities (new_articles eligible published)) []

-- ===== src/Database/Repository.antt =====
-- database/repositories.py: ArticleRepository, which works on the same table of articles, and its table of
-- operational reports. A report is its JSON text; `at_most` is the order of texts.
use yasin_press_rewrite.Base.{
  ℕ, String, Bool, not, List, [], ◌∷◌, ◌++◌, Option, none, some, length, map, max, select, sort_by,
  take, ◌==◌, string_eq, if◌then◌else◌,
}
use yasin_press_rewrite.Models.{Article}
use yasin_press_rewrite.Database.Articles

-- save: the same upsert as that of the composed repositories; `none` is the IntegrityError.
unfoldable pub repository_save : Article → List Article → Option (List Article)
repository_save a rows = Articles.save a rows

unfoldable pub repository_get : String → List Article → Option Article
repository_get key rows = Articles.get key rows

unfoldable pub repository_exists : String → List Article → Bool
repository_exists id rows = Articles.exists id rows

unfoldable pub count_articles : List Article → ℕ
count_articles rows = length rows

-- A row of `operational_reports`.
pub record ReportText : Type 0 where
  pub timestamp : String
  pub payload : String

-- save_operational_report: `now` is the text of the clock, for a report without a timestamp.
unfoldable pub save_operational_report :
    String → Option String → String → List ReportText → List ReportText
save_operational_report now timestamp payload rows =
    let at = stamp timestamp in
    select (λ (r : ReportText). not (r.timestamp == at)) rows
    ++ record { timestamp = at; payload = payload } ∷ []
  where
    stamp : Option String → String
    stamp none = now
    stamp (some t) = if t == "" then now else t

-- recent_operational_reports: `ORDER BY timestamp DESC LIMIT max(1, limit)`
unfoldable pub recent_operational_reports :
    (String → String → Bool) → ℕ → List ReportText → List String
recent_operational_reports at_most limit rows = take (max 1 limit) (
    map (λ (r : ReportText). r.payload)
      (sort_by (λ (a b : ReportText). at_most b.timestamp a.timestamp) rows))

-- ===== src/Database/Articles.antt =====
-- SQLiteArticleRepository: the table `articles`, with primary key `id` and a unique `url`.
use yasin_press_rewrite.Base.{
  String, Bool, true, false, ◌&&◌, ◌||◌, not, List, [], ◌∷◌, Option, none, some, ◌==◌, string_eq,
  if◌then◌else◌, any, first, leb, sort_by,
}
use yasin_press_rewrite.Models.{Article}
use yasin_press_rewrite.Database.Table.{upsert}

abbrev same_id : Article → Article → Bool
same_id old a = old.id == a.id

-- The columns that the table has, with the defaults of `_row_to_article`: `ai_modified` is not
-- stored, and an empty state reads as the default one.
unfoldable pub stored : Article → Article
stored a = record a {
  ai_modified = false;
  lifecycle_state = if a.lifecycle_state == "" then "fetched" else a.lifecycle_state;
  ai_state = if a.ai_state == "" then "none" else a.ai_state;
}

-- Another row has the URL, so that the statement breaks the UNIQUE constraint.
unfoldable pub url_taken : Article → List Article → Bool
url_taken a rows = any (λ old. (old.url == a.url) && not (old.id == a.id)) rows

-- save: `none` is the sqlite3.IntegrityError of the UNIQUE constraint.
unfoldable pub save : Article → List Article → Option (List Article)
unfolding stored url_taken
save a rows =
    if url_taken a rows then none else some (upsert same_id (λ old row. row) (stored a) rows)

-- save_many: the rows of the articles before a failing one are committed.
unfoldable pub save_many : List Article → List Article → List Article × Bool
save_many [] rows = (rows, true)
save_many (a ∷ more) rows = elim (save a rows) [
  | none ↦ (rows, false)
  | some rows' ↦ save_many more rows'
]

-- `WHERE id=? OR url=? LIMIT 1`: the first such row in the order of the rowids.
unfoldable pub get : String → List Article → Option Article
get key rows = first (λ a. (a.id == key) || (a.url == key)) rows

unfoldable pub exists : String → List Article → Bool
exists key rows = any (λ a. a.id == key) rows

-- `ORDER BY published_at DESC`, where NULL comes last.
abbrev published_desc : Article → Article → Bool
published_desc a b = elim b.published_at [
  | none ↦ true
  | some t ↦ elim a.published_at [ none ↦ false | some u ↦ leb t u ]
]

unfoldable pub all : List Article → List Article
all rows = sort_by published_desc rows

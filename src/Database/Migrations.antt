-- ===== src/Database/Migrations.antt =====
-- database/migrations.py: the texts of the rebuilt table, and migrate on the table of articles.
use yasin_press_rewrite.Base.{
  ℕ, ◌+◌, String, Bool, true, false, ◌&&◌, ◌||◌, not, List, [], ◌∷◌, ◌++◌, Option, none, some, map,
  take, all, any, first, contains, Dict, lookup, put, sort_by, min, ◌==◌, nat_eq, string_eq,
  if◌then◌else◌,
}
use yasin_press_rewrite.Database.Texts.{
  Text, codes, drop, starts_with, find, find_from, rfind_between, rstrip, spaces,
}

-- A result, or the text of a RuntimeError or of an sqlite3.Error.
pub data Checked (A : Type 0) : Type 0 where
  fails : String → Checked A
  gives : A → Checked A

-- `PRAGMA table_info(articles)`, a row of the table, and an index or a trigger of it.
pub record Column : Type 0 where
  pub name : String
  pub notnull : Bool

abbrev pub Row : Type 0
Row = Dict String (Option String)

pub record SchemaObject : Type 0 where
  pub is_index : Bool
  pub name : String
  pub sql : Text

pub record ArticleTable : Type 0 where
  pub sql : Text
  pub columns : List Column
  pub rows : List Row
  pub objects : List SchemaObject

-- What SQLite and `str` do: `str.lower` of a code point, white space, the order of names, the columns
-- that a CREATE TABLE text declares, or its error, and the text that sqlite_master keeps of the first
-- schema, after a column is added, and after the table is renamed. `same_name` says whether two names of
-- columns are one to SQLite, which does not look at the case of their letters.
pub record Sqlite : Type 0 where
  pub lower : ℕ → ℕ
  pub is_space : ℕ → Bool
  pub at_most : String → String → Bool
  pub columns_of : Text → Checked (List Column)
  pub initial_sql : Text
  pub added : String → Text → Text
  pub renamed : Text → Text
  pub same_name : String → String → Bool

abbrev pub article_columns : List String
article_columns =
    "event_id" ∷ "received_at" ∷ "lifecycle_state" ∷ "ai_state" ∷ "ai_error" ∷ "source_metadata"
    ∷ "updated_at" ∷ "fetched_at" ∷ "processed_at" ∷ "published_to_channel_at" ∷ []

abbrev nullable : String → Column
nullable name = record { name = name; notnull = false }

abbrev required : String → Column
required name = record { name = name; notnull = true }

-- The columns of _INITIAL_ARTICLES_SCHEMA.
abbrev pub initial_columns : List Column
initial_columns =
    nullable "id"
    ∷ required "title"
    ∷ required "url"
    ∷ required "content"
    ∷ required "source"
    ∷ nullable "published_at"
    ∷ nullable "category"
    ∷ map nullable article_columns

abbrev earlier : Option ℕ → Option ℕ → Option ℕ
earlier none b = b
earlier (some i) none = some i
earlier (some i) (some j) = some (min i j)

-- The loop of _published_at_is_not_null.
unfoldable pub published_at_is_not_null : List Column → Bool
published_at_is_not_null columns = elim (first (λ c. c.name == "published_at") columns) [
  | none ↦ false
  | some c ↦ c.notnull
]

-- A value of a row; a column that the row says nothing of is NULL.
abbrev pub cell : String → Row → Option String
cell name row = elim (lookup name row) [ none ↦ none | some v ↦ v ]

-- `INSERT INTO articles__migration (...) SELECT ...` into a table of the given columns: it fails on an
-- unknown column, and on NULL in a column that must not be NULL.
abbrev pub names_of : List Column → List String
names_of columns = map (λ c. c.name) columns

unfoldable pub fits : List Column → Row → Bool
fits columns row =
    all (λ c. not c.notnull || elim (cell c.name row) [ none ↦ false | some v ↦ true ]) columns

abbrev pub copied : List String → Row → Row
copied names row = map (λ n. (n, cell n row)) names

unfoldable pub copy_rows : List Column → List Column → List Row → Checked (List Row)
unfolding fits
copy_rows old new rows =
    if not (all (λ n. contains n (names_of new)) (names_of old))
    then fails "no such column"
    else (let moved : List Row = map (copied (names_of old)) rows in
        if all (fits new) moved then gives moved else fails "NOT NULL constraint failed")

module _ (q : Sqlite) where
  unfoldable pub make_published_at_nullable : Text → Checked Text
  make_published_at_nullable sql =
      let lowered : Text = map q.lower sql in
      elim (find (codes "published_at") lowered) [
        | none ↦ fails "published_at column is missing from legacy schema"
        | some start ↦
            elim (earlier (find_from (codes ",") start lowered)
              (find_from (codes ")") start lowered)) [
                | none ↦ fails "Unable to locate published_at column boundary"
                | some end ↦ elim (rfind_between (codes "not null") start end lowered) [
                  | none ↦ fails "Unable to locate published_at NOT NULL constraint"
                  | some i ↦ gives (rstrip q.is_space (take i sql) ++ drop (i + 8) sql)
                ]
              ]
      ]

  -- `if not exists`, if the statement says it, with the white space after it.
  unfoldable pub past_if_not_exists : ℕ → Text → Text → ℕ
  past_if_not_exists cursor lowered sql =
      if starts_with (codes "if not exists") (drop cursor lowered)
      then cursor + 13 + spaces q.is_space (drop (cursor + 13) sql)
      else cursor

  -- The length of the identifier of the table.
  unfoldable pub identifier : Text → Option ℕ
  identifier text =
      if starts_with (codes "\"articles\"") text
      then some 10
      else if starts_with (codes "[articles]") text
      then some 10
      else if starts_with (codes "`articles`") text
      then some 10
      else if starts_with (codes "articles") text
      then some 8
      else none

  unfoldable pub rename_articles_create_statement : Text → Checked Text
  unfolding past_if_not_exists identifier
  rename_articles_create_statement sql =
      let lowered : Text = map q.lower sql in
      elim (find (codes "create table") lowered) [
        | none ↦ fails "Unable to locate CREATE TABLE statement"
        | some start ↦
            let cursor : ℕ =
              past_if_not_exists (start + 12 + spaces q.is_space (drop (start + 12) sql)) lowered
                sql in
            elim (identifier (drop cursor lowered)) [
              | none ↦ fails "Unable to locate articles table name"
              | some n ↦
                  gives (take cursor sql ++ codes "articles__migration" ++ drop (cursor + n) sql)
            ]
      ]

  -- `ORDER BY CASE type WHEN 'index' THEN 0 ELSE 1 END, name`
  abbrev pub object_order : SchemaObject → SchemaObject → Bool
  object_order a b =
      if a.is_index
      then not b.is_index || q.at_most a.name b.name
      else not b.is_index && q.at_most a.name b.name

  -- _rebuild_articles_table
  unfoldable pub rebuild_articles_table : ArticleTable → Checked ArticleTable
  unfolding make_published_at_nullable rename_articles_create_statement copy_rows
  rebuild_articles_table t = elim t.sql [
    | [] ↦ fails "articles table definition is unavailable"
    | c ∷ cs ↦ elim (make_published_at_nullable (c ∷ cs)) [
      | fails e ↦ fails e
      | gives create_sql ↦ elim (rename_articles_create_statement create_sql) [
        | fails e ↦ fails e
        | gives replacement_sql ↦ elim (q.columns_of replacement_sql) [
          | fails e ↦ fails e
          | gives columns ↦ elim (copy_rows t.columns columns t.rows) [
            | fails e ↦ fails e
            | gives rows ↦ gives (record {
              sql = q.renamed replacement_sql;
              columns = columns;
              rows = rows;
              objects = sort_by object_order t.objects;
            })
          ]
        ]
      ]
    ]
  ]

  -- `CREATE TABLE IF NOT EXISTS`
  unfoldable pub create_if_missing : Option ArticleTable → ArticleTable
  create_if_missing none = record {
    sql = q.initial_sql;
    columns = initial_columns;
    rows = [];
    objects = [];
  }
  create_if_missing (some t) = t

  -- `ALTER TABLE articles ADD COLUMN ... TEXT`: it fails if SQLite takes the name for that of a column.
  unfoldable pub with_column : String → ArticleTable → ArticleTable
  with_column name t = record t {
    sql = q.added name t.sql;
    columns = t.columns ++ nullable name ∷ [];
    rows = map (put name none) t.rows;
  }

  abbrev pub has_name : String → ArticleTable → Bool
  has_name name t = any (q.same_name name) (names_of t.columns)

  unfoldable pub add_column : String → ArticleTable → Checked ArticleTable
  add_column name t =
      if has_name name t then fails "duplicate column name" else gives (with_column name t)

  unfoldable pub add_columns : List String → List String → ArticleTable → Checked ArticleTable
  unfolding add_column
  add_columns existing [] t = gives t
  add_columns existing (name ∷ names) t =
      if contains name existing then add_columns existing names t else elim (add_column name t) [
        | fails e ↦ fails e
        | gives more ↦ add_columns existing names more
      ]

  -- The columns of _ARTICLE_COLUMNS that are missing are added.
  unfoldable pub completed_table : Option ArticleTable → Checked ArticleTable
  unfolding create_if_missing add_columns
  completed_table start =
      let t : ArticleTable = create_if_missing start in
      add_columns (names_of t.columns) article_columns t

  -- The test of _published_at_is_not_null, and the rebuild.
  unfoldable pub relaxed : ArticleTable → Checked ArticleTable
  relaxed t = if published_at_is_not_null t.columns then rebuild_articles_table t else gives t

  -- migrate: an exception rolls back to the savepoint.
  unfoldable pub migrate : Option ArticleTable → Option String × Option ArticleTable
  migrate start = elim (completed_table start) [
    | fails e ↦ (some e, start)
    | gives complete ↦ elim (relaxed complete) [
      | fails e ↦ (some e, start)
      | gives t ↦ (none, some t)
    ]
  ]

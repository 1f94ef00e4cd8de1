-- ===== src/Database/Migrating.antt =====
-- What migrate (database/migrations.py) keeps of the table of articles.
use yasin_press_rewrite.Base.{
  subst, sort_by, ◌≡◌, refl, sym, ap, ◌∙◌, ◌⊎◌, inl, inr, String, Bool, true, false, not, List, [],
  ◌∷◌, Option, none, some, map, all, contains, arith, and-true, or-true, Bool-cases, lookup, ==_iff,
  ◌==◌, string_eq, if◌then◌else◌,
}
use yasin_press_rewrite.Database.Texts.{Text}
use yasin_press_rewrite.Database.Migrations.{
  object_order, Sqlite, Column, Row, SchemaObject, fits, ArticleTable, Checked, fails, gives,
  article_columns, published_at_is_not_null, cell, copy_rows, rebuild_articles_table,
  create_if_missing, completed_table, relaxed, migrate, make_published_at_nullable,
  rename_articles_create_statement, names_of, copied, has_name,
}
use yasin_press_rewrite.Database.Columns.{
  Keeps, Keeps-trans, or_null, cell-or_null, Completed, add_columns-Completed, add_columns-idle,
}

contains-all :
    (names : List String) (known : List String)
    → all (λ n. contains n known) names ≡ true
    → (n : String) → contains n names ≡ true
    → contains n known ≡ true
unfolding all contains
contains-all [] known h n m = absurd (ground (arith, m))
contains-all (name ∷ names) known h n m = elim (or-true (n == name) (contains n names) m) [
  | inl same ↦ ap (λ x. contains x known) ((==_iff n name).0 same) ∙ (and-true _ _ h).0
  | inr later ↦ contains-all names known (and-true _ _ h).1 n later
]

cell-copied :
    (n : String) (names : List String) (row : Row)
    → contains n names ≡ true
    → cell n (copied names row) ≡ cell n row
unfolding contains lookup
cell-copied n names row m = cell-or_null n (copied names row) ∙ among names m
  where
    among : (l : List String) → contains n l ≡ true → or_null (lookup n (copied l row)) ≡ cell n row
    among [] k = absurd (ground (arith, k))
    among (name ∷ l) k = elim (Bool-cases (n == name)) [
      | inl e ↦ rw (e, if◌then◌else◌) (ap (λ x. cell x row) (sym ((==_iff n name).0 e)))
      | inr e ↦ rw (e, if◌then◌else◌) (among l (ground (arith, k, e)))
    ]

values-copied :
    (n : String) (names : List String) (rows : List Row)
    → contains n names ≡ true
    → map (cell n) (map (copied names) rows) ≡ map (cell n) rows
values-copied n names [] m = refl
values-copied n names (row ∷ rows) m =
    rw (values-copied n names rows m) (ap (λ v. v ∷ map (cell n) rows) (cell-copied n names row m))

copied_rows :
    (old new : List Column) (rows after : List Row)
    → copy_rows old new rows ≡ gives after
    → (all (λ n. contains n (names_of new)) (names_of old) ≡ true)
      × (after ≡ map (copied (names_of old)) rows)
unfolding copy_rows
copied_rows old new rows after e =
    by_checks (all (λ n. contains n (names_of new)) (names_of old))
      (all (fits new) (map (copied (names_of old)) rows)) e
  where
    by_checks :
        (p v : Bool)
        → (if not p
            then fails "no such column"
            else if v
            then gives (map (copied (names_of old)) rows)
            else fails "NOT NULL constraint failed")
          ≡ gives after
        → (p ≡ true) × (after ≡ map (copied (names_of old)) rows)
    by_checks true true e = (refl, ground (arith, e))
    by_checks true false e = absurd (ground (arith, e))
    by_checks false v e = absurd (ground (arith, e))

Keeps-refl : (t : ArticleTable) → Keeps t t
Keeps-refl t = record { columns = λ n m. m; values = λ n m. refl }

Checked-cases :
    {A : Type 0} (c : Checked A) → ((e : String) × (c ≡ fails e)) ⊎ ((a : A) × (c ≡ gives a))
Checked-cases (fails e) = inl (e, refl)
Checked-cases (gives a) = inr (a, refl)

-- A failure, or a table that keeps the columns and the values.
abbrev OrKeeps : ArticleTable → Checked ArticleTable → Type 0
OrKeeps t (fails e) = Unit
OrKeeps t (gives after) = Keeps t after

module _ (q : Sqlite) where
  filled-OrKeeps :
      (t : ArticleTable) (sql : Text) (columns : List Column) (objects : List SchemaObject)
      (rows : Checked (List Row))
      → copy_rows t.columns columns t.rows ≡ rows
      → OrKeeps t (elim rows as (λ _. Checked ArticleTable) [
        | fails e ↦ fails e
        | gives rows ↦
            gives (record { sql = sql; columns = columns; rows = rows; objects = objects })
      ])
  filled-OrKeeps t sql columns objects (fails e) h = tt
  filled-OrKeeps t sql columns objects (gives rows) h =
      let (known, same) = copied_rows t.columns columns t.rows rows h in
      record {
        columns = contains-all (names_of t.columns) (names_of columns) known;
        values = λ n m. ap (map (cell n)) same ∙ values-copied n (names_of t.columns) t.rows m;
      }

  rebuild_articles_table-OrKeeps : (t : ArticleTable) → OrKeeps t (rebuild_articles_table q t)
  unfolding rebuild_articles_table
  rebuild_articles_table-OrKeeps t = by_sql t.sql refl
    where
      by_sql : (sql : Text) → t.sql ≡ sql → OrKeeps t (rebuild_articles_table q t)
      by_sql [] e = rw (e, rebuild_articles_table) tt
      by_sql (c ∷ cs) e = elim (Checked-cases (make_published_at_nullable q (c ∷ cs))) [
        | inl (_, f) ↦ rw (e, f, rebuild_articles_table) tt
        | inr (create_sql, f) ↦
            elim (Checked-cases (rename_articles_create_statement q create_sql)) [
              | inl (_, g) ↦ rw (e, f, g, rebuild_articles_table) tt
              | inr (replacement, g) ↦ elim (Checked-cases (q.columns_of replacement)) [
                | inl (_, h) ↦ rw (e, f, g, h, rebuild_articles_table) tt
                | inr (columns, h) ↦
                    rw (e, f, g, h, rebuild_articles_table)
                      (filled-OrKeeps (record t { sql = c ∷ cs }) (q.renamed replacement) columns
                        (sort_by (object_order q) t.objects) (copy_rows t.columns columns t.rows)
                        refl)
              ]
            ]
      ]

  -- The columns that the articles need.
  abbrev IsComplete : ArticleTable → Type 0
  IsComplete t =
      (n : String) → contains n article_columns ≡ true → contains n (names_of t.columns) ≡ true

  -- What completed_table gives of a table.
  abbrev pub OrCompleted : Option ArticleTable → Checked ArticleTable → Type 0
  OrCompleted start c =
      Completed q (create_if_missing q start) article_columns (create_if_missing q start) c

  completed_table-OrCompleted :
      (start : Option ArticleTable) → OrCompleted start (completed_table q start)
  unfolding completed_table
  completed_table-OrCompleted start =
      let t = create_if_missing q start in
      add_columns-Completed q t article_columns t (Keeps-refl t)

  relaxed-Keeps : (t after : ArticleTable) → relaxed q t ≡ gives after → Keeps t after
  unfolding relaxed
  relaxed-Keeps t after h = by_test (published_at_is_not_null t.columns) h
    where
      by_gives : (c : Checked ArticleTable) → c ≡ gives after → OrKeeps t c → Keeps t after
      by_gives (fails e) h k = absurd (ground (arith, h))
      by_gives (gives b) h k = subst (Keeps t) (ground (arith, h)) k

      by_test :
          (b : Bool)
          → (if b then rebuild_articles_table q t else gives t) ≡ gives after
          → Keeps t after
      by_test true h = by_gives (rebuild_articles_table q t) h (rebuild_articles_table-OrKeeps t)
      by_test false h = by_gives (gives t) h (Keeps-refl t)

  relaxed_fails :
      (t : ArticleTable) (e : String)
      → relaxed q t ≡ fails e
      → published_at_is_not_null t.columns ≡ true
  unfolding relaxed
  relaxed_fails t e h = by_test (published_at_is_not_null t.columns) h
    where
      by_test :
          (b : Bool) → (if b then rebuild_articles_table q t else gives t) ≡ fails e → b ≡ true
      by_test true h = refl
      by_test false h = absurd (ground (arith, h))

  -- Why migrate fails: a column that is missing has a name that SQLite takes for that of a column
  -- which the table has by then, or published_at is NOT NULL.
  abbrev pub CannotMigrate : Option ArticleTable → Type 0
  CannotMigrate start =
      ((name : String) × (u : ArticleTable) × (contains name article_columns ≡ true)
        × (contains name (names_of (create_if_missing q start).columns) ≡ false)
        × Keeps (create_if_missing q start) u
        × (has_name q name u ≡ true))
      ⊎ ((t : ArticleTable) × (completed_table q start ≡ gives t)
          × (published_at_is_not_null t.columns ≡ true))

  -- What a call of migrate comes to: an error and the table as it was, or a table that has the
  -- columns and keeps the old ones and their values.
  abbrev pub IsMigrated : Option ArticleTable → Option String × Option ArticleTable → Type 0
  IsMigrated start end =
      ((e : String) × (end ≡ (some e, start)) × CannotMigrate start)
      ⊎ ((t : ArticleTable) × (end ≡ (none, some t))
          × Keeps (create_if_missing q start) t
          × IsComplete t)

  pub migrate-IsMigrated : (start : Option ArticleTable) → IsMigrated start (migrate q start)
  unfolding migrate
  migrate-IsMigrated start =
      by_completed (completed_table q start) refl (completed_table-OrCompleted start)
    where
      by_relaxed :
          (complete : ArticleTable) (c : Checked ArticleTable)
          → completed_table q start ≡ gives complete
          → OrCompleted start (gives complete)
          → relaxed q complete ≡ c
          → IsMigrated start (elim c as (λ _. Option String × Option ArticleTable) [
            | fails e ↦ (some e, start)
            | gives t ↦ (none, some t)
          ])
      by_relaxed complete (fails e) g done h =
          inl (e, refl, inr (complete, g, relaxed_fails complete e h))
      by_relaxed complete (gives t) g (keeps, old, new) h =
          let kept = relaxed-Keeps complete t h in
          inr (t, refl, Keeps-trans _ complete t keeps kept, λ n m. kept.columns n (new n m))

      by_completed :
          (c : Checked ArticleTable)
          → completed_table q start ≡ c
          → OrCompleted start c
          → IsMigrated start (elim c as (λ _. Option String × Option ArticleTable) [
            | fails e ↦ (some e, start)
            | gives complete ↦
                elim (relaxed q complete) as (λ _. Option String × Option ArticleTable) [
                  | fails e ↦ (some e, start)
                  | gives t ↦ (none, some t)
                ]
          ])
      by_completed (fails e) g done = inl (e, refl, inl done)
      by_completed (gives complete) g done = by_relaxed complete (relaxed q complete) g done refl

  migrate-IsComplete :
      (start : Option ArticleTable) (t : ArticleTable)
      → migrate q start ≡ (none, some t)
      → IsComplete t
  migrate-IsComplete start t h = elim (migrate-IsMigrated start) [
    | inl (e, f, _) ↦ absurd (cc (h, f))
    | inr (u, f, kept, complete) ↦
        subst IsComplete
          (same u (ap (λ (p : Option String × Option ArticleTable). p.1) (sym f ∙ h))) complete
  ]
    where
      same : (u : ArticleTable) → some u ≡ some t → u ≡ t
      same u e = ground (arith, e)

  completed_idle : (t : ArticleTable) → IsComplete t → completed_table q (some t) ≡ gives t
  unfolding completed_table create_if_missing
  completed_idle t complete = add_columns-idle q t article_columns complete

  relaxed_idle :
      (t : ArticleTable) → published_at_is_not_null t.columns ≡ false → relaxed q t ≡ gives t
  unfolding relaxed
  relaxed_idle t h = rw (h, if◌then◌else◌) refl

  migrate_complete_table :
      (t : ArticleTable)
      → IsComplete t
      → published_at_is_not_null t.columns ≡ false
      → migrate q (some t) ≡ (none, some t)
  unfolding migrate
  migrate_complete_table t complete h =
      rw (completed_idle t complete, relaxed_idle t h, migrate) refl

  -- After a migration that succeeds and leaves published_at nullable, another one succeeds and
  -- changes nothing.
  pub migrate_again :
      (start : Option ArticleTable) (t : ArticleTable)
      → migrate q start ≡ (none, some t)
      → published_at_is_not_null t.columns ≡ false
      → migrate q (some t) ≡ (none, some t)
  migrate_again start t h nullable =
      migrate_complete_table t (migrate-IsComplete start t h) nullable

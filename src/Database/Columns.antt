-- ===== src/Database/Columns.antt =====
-- The columns that a migration (database/migrations.py) adds, and the values that it keeps.
use yasin_press_rewrite.Base.{
  ◌≡◌, refl, sym, ap, ◌∙◌, inl, inr, String, true, false, List, [], ◌∷◌, ◌++◌, Option, none, some,
  map, contains, arith, or-true, ==_refl, contains-append, Bool-cases, lookup, put, lookup-put,
  ==_iff, ◌==◌, string_eq, if◌then◌else◌,
}
use yasin_press_rewrite.Database.Migrations.{
  Sqlite, Column, Row, ArticleTable, cell, with_column, has_name, add_column, add_columns, names_of,
  Checked, fails, gives,
}

-- All columns and values of `old` are in `new`.
pub record Keeps (old new : ArticleTable) : Type 0 where
  pub columns :
      (n : String)
      → contains n (names_of old.columns) ≡ true
      → contains n (names_of new.columns) ≡ true
  pub values :
      (n : String)
      → contains n (names_of old.columns) ≡ true
      → map (cell n) new.rows ≡ map (cell n) old.rows

pub Keeps-trans : (a b c : ArticleTable) → Keeps a b → Keeps b c → Keeps a c
Keeps-trans a b c h k = record {
  columns = λ n m. k.columns n (h.columns n m);
  values = λ n m. k.values n (h.columns n m) ∙ h.values n m;
}

abbrev pub or_null : Option (Option String) → Option String
or_null none = none
or_null (some v) = v

pub cell-or_null : (n : String) (row : Row) → cell n row ≡ or_null (lookup n row)
cell-or_null n row = by_found (lookup n row)
  where
    by_found :
        (v : Option (Option String))
        → (elim v as (λ _. Option String) [ none ↦ none | some w ↦ w ]) ≡ or_null v
    by_found none = refl
    by_found (some w) = refl

cell-put :
    (n name : String) (row : Row) → (n == name) ≡ false → cell n (put name none row) ≡ cell n row
cell-put n name row e =
    cell-or_null n (put name none row)
    ∙ ap or_null (lookup-put n name none row)
    ∙ rw (e, if◌then◌else◌) (sym (cell-or_null n row))

values-put :
    (n name : String) (rows : List Row)
    → (n == name) ≡ false
    → map (cell n) (map (put name none) rows) ≡ map (cell n) rows
values-put n name [] e = refl
values-put n name (row ∷ rows) e =
    rw (values-put n name rows e) (ap (λ v. v ∷ map (cell n) rows) (cell-put n name row e))

names-append : (xs ys : List Column) → names_of (xs ++ ys) ≡ names_of xs ++ names_of ys
names-append [] ys = refl
names-append (x ∷ xs) ys = ap (λ l. x.name ∷ l) (names-append xs ys)

-- A name that is not among the columns.
other_name :
    (n name : String) (names : List String)
    → contains n names ≡ true
    → contains name names ≡ false
    → (n == name) ≡ false
other_name n name names h k = elim (Bool-cases (n == name)) [
  | inl e ↦ absurd (cc (h, k, (==_iff n name).0 e))
  | inr e ↦ e
]

module _ (q : Sqlite) (old : ArticleTable) where
  with_column-Keeps :
      (name : String) (t : ArticleTable)
      → contains name (names_of old.columns) ≡ false
      → Keeps old t
      → Keeps old (with_column q name t)
  unfolding with_column
  with_column-Keeps name t h k = record {
    columns = λ n m. rw (names-append t.columns, contains-append n, k.columns n m) refl;
    values = λ n m.
        values-put n name t.rows (other_name n name (names_of old.columns) m h) ∙ k.values n m;
  }

  with_column-old :
      (n name : String) (t : ArticleTable)
      → contains n (names_of t.columns) ≡ true
      → contains n (names_of (with_column q name t).columns) ≡ true
  unfolding with_column
  with_column-old n name t h = rw (names-append t.columns, contains-append n, h) refl

  with_column-new :
      (name : String) (t : ArticleTable)
      → contains name (names_of (with_column q name t).columns) ≡ true
  unfolding with_column contains
  with_column-new name t =
      rw (names-append t.columns, contains-append name) (ground (arith, ==_refl name))

  -- What adding the missing ones of some columns to `t` comes to: an error at one that SQLite takes
  -- for a column that the table has by then, or a table with all of them, which keeps what was there.
  abbrev pub Completed : List String → ArticleTable → Checked ArticleTable → Type 0
  Completed names t (fails e) =
      (name : String) × (u : ArticleTable) × (contains name names ≡ true)
      × (contains name (names_of old.columns) ≡ false)
      × Keeps old u
      × (has_name q name u ≡ true)
  Completed names t (gives after) =
      Keeps old after
      × ((n : String)
          → contains n (names_of t.columns) ≡ true
          → contains n (names_of after.columns) ≡ true)
      × ((n : String) → contains n names ≡ true → contains n (names_of after.columns) ≡ true)

  Completed-later :
      (name : String) (names : List String) (t u : ArticleTable) (c : Checked ArticleTable)
      → contains name (names_of u.columns) ≡ true
      → ((n : String)
          → contains n (names_of t.columns) ≡ true
          → contains n (names_of u.columns) ≡ true)
      → Completed names u c
      → Completed (name ∷ names) t c
  unfolding contains
  Completed-later name names t u (fails e) here more (other, v, m, rest, kept, named) =
      (other, v, ground (arith, m), rest, kept, named)
  Completed-later name names t u (gives after) here more (k, kept, complete) = (
    k,
    λ n m. kept n (more n m),
    λ n m. elim (or-true (n == name) (contains n names) m) [
      | inl same ↦
          ap (λ x. contains x (names_of after.columns)) ((==_iff n name).0 same) ∙ kept name here
      | inr later ↦ complete n later
    ],
  )

  -- The columns that are added to `old`, one after the other.
  pub add_columns-Completed :
      (names : List String) (t : ArticleTable)
      → Keeps old t
      → Completed names t (add_columns q (names_of old.columns) names t)
  unfolding add_columns add_column contains
  add_columns-Completed [] t k = (k, λ n m. m, λ n m. absurd (ground (arith, m)))
  add_columns-Completed (name ∷ names) t k =
      elim (Bool-cases (contains name (names_of old.columns))) [
        | inl e ↦
            rw (e, if◌then◌else◌)
              (Completed-later name names t t (add_columns q (names_of old.columns) names t)
                (k.columns name e) (λ n m. m) (add_columns-Completed names t k))
        | inr e ↦ elim (Bool-cases (has_name q name t)) [
          | inl h ↦ rw (e, h, if◌then◌else◌) (name, t, ground (arith, ==_refl name), e, k, h)
          | inr h ↦
              rw (e, h, if◌then◌else◌)
                (Completed-later name names t (with_column q name t)
                  (add_columns q (names_of old.columns) names (with_column q name t))
                  (with_column-new name t) (λ n m. with_column-old n name t m)
                  (add_columns-Completed names (with_column q name t)
                    (with_column-Keeps name t e k)))
        ]
      ]

  -- Nothing is added to a table that has the columns.
  pub add_columns-idle :
      (names : List String)
      → ((n : String) → contains n names ≡ true → contains n (names_of old.columns) ≡ true)
      → add_columns q (names_of old.columns) names old ≡ gives old
  unfolding add_columns contains
  add_columns-idle [] h = refl
  add_columns-idle (name ∷ names) h =
      rw (h name (ground (arith, ==_refl name)), if◌then◌else◌)
        (add_columns-idle names (λ n m. h n (rw (m) (ground arith))))

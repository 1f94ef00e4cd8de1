-- ===== src/Database/MigrationTests.antt =====
-- The migration of a legacy table.
use yasin_press_rewrite.Base.{
  contains, first, ◌≡◌, refl, true, false, [], ◌∷◌, none, some, nat_eq, ◌==◌, string_eq,
}
use yasin_press_rewrite.Database.Texts.{
  codes, find, find_from, rfind, rfind_between, starts_with, rstrip, spaces,
}
use yasin_press_rewrite.Database.Migrations.{
  relaxed, completed_table, create_if_missing, add_columns, past_if_not_exists, identifier, Sqlite,
  ArticleTable, gives, initial_columns, make_published_at_nullable,
  rename_articles_create_statement, migrate, published_at_is_not_null,
}
use yasin_press_rewrite.Database.Migrating.{migrate_again}

-- An SQLite for texts in small letters, which declares the initial columns.
abbrev sqlite : Sqlite
sqlite = record {
  lower = λ c. c;
  is_space = λ c. c == 32;
  at_most = λ a b. true;
  columns_of = λ text. gives initial_columns;
  initial_sql = codes "create table articles()";
  added = λ name text. text;
  renamed = λ text. text;
  same_name = λ a b. a == b;
}

abbrev legacy : ArticleTable
legacy = record {
  sql = codes "create table articles (id text primary key, published_at text not null, title text)";
  columns =
      record { name = "id"; notnull = false }
      ∷ record { name = "published_at"; notnull = true }
      ∷ record { name = "title"; notnull = false }
      ∷ [];
  rows =
      (("id", some "a") ∷ ("published_at", some "2026-01-01") ∷ ("title", some "Title") ∷ []) ∷ [];
  objects = [];
}

legacy_nullable :
    make_published_at_nullable sqlite legacy.sql
    ≡ gives (codes "create table articles (id text primary key, published_at text, title text)")
unfolding make_published_at_nullable codes find find_from rfind rfind_between starts_with rstrip
legacy_nullable = refl

legacy_renamed :
    rename_articles_create_statement sqlite (codes "create table if not exists articles (id text)")
    ≡ gives (codes "create table if not exists articles__migration (id text)")
unfolding rename_articles_create_statement codes find starts_with spaces past_if_not_exists
    identifier
legacy_renamed = refl

-- The table that the initial schema gives.
abbrev first_table : ArticleTable
first_table = record {
  sql = sqlite.initial_sql;
  columns = initial_columns;
  rows = [];
  objects = [];
}

first_migration : migrate sqlite none ≡ (none, some first_table)
unfolding migrate relaxed completed_table create_if_missing add_columns contains
    published_at_is_not_null first
first_migration = refl

migrate_again_example : migrate sqlite (some first_table) ≡ (none, some first_table)
unfolding published_at_is_not_null first
migrate_again_example = migrate_again sqlite none first_table first_migration refl

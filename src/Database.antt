-- ===== src/Database.antt =====
-- yasinpress/database/sqlite.py: the tables of the shared SQLite connection. A table is the list of
-- its rows in the order of their rowids; `INSERT ... ON CONFLICT(...) DO UPDATE` is `upsert`.
pub mod Table
pub mod Articles
pub mod History
pub mod Keys
pub mod Queue
pub mod Keyed
pub mod Jobs
pub mod Repository
pub mod Texts
pub mod Migrations
pub mod Columns
pub mod Migrating
mod MigrationTests
use yasin_press_rewrite.Base.{String, List, []}
use yasin_press_rewrite.Models.{Article, PublicationJob, DeliveryRecord}

-- SQLiteRepositories: one connection with the tables that the durable state is kept in.
pub record Db : Type 0 where
  pub articles : List Article
  pub history : List DeliveryRecord
  pub keys : List String
  pub queue : List PublicationJob

abbrev pub empty : Db
empty = record { articles = []; history = []; keys = []; queue = [] }

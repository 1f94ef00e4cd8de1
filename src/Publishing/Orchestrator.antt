-- ===== src/Publishing/Orchestrator.antt =====
-- PublishReport and PublishingOrchestrator, with the tables of delivery history and idempotency keys
-- of the shared database as its stores.
use Prim.Native.String.{◌++◌}
use yasin_press_rewrite.Base.{
  ℕ, String, Bool, ◌&&◌, not, List, [], ◌∷◌, Option, none, some, total, if◌then◌else◌,
}
use yasin_press_rewrite.Models.{
  Instant, Article, DeliveryRecord, PublishResult, Outcome, delivery_key,
}
use yasin_press_rewrite.Database.{Db}
use yasin_press_rewrite.Database.History
use yasin_press_rewrite.Database.Keys
use yasin_press_rewrite.Engine.Run.{skip}
use yasin_press_rewrite.Publishing.Reliability.{RetryPolicy, Sent, result_of, publish}

-- A destination behind a ReliablePublisher: its name, and its answer to each attempt at an article.
pub record Destination : Type 0 where
  pub name : String
  pub answer : Article → ℕ → Outcome

-- _version_key: a version only for an explicit update.
unfoldable pub update_key : (Instant → String) → Article → String → Option String
update_key iso a destination = elim a.updated_at [
  | none ↦ none
  | some t ↦ some (a.id ++ (":" ++ (destination ++ (":version:" ++ iso t))))
]

-- `already_published_version or unchanged_legacy_delivery`
unfoldable pub is_published : (Instant → String) → Article → String → List String → Bool
is_published iso a destination keys = elim (update_key iso a destination) [
  | none ↦ Keys.seen (delivery_key a.id destination) keys
  | some key ↦ Keys.seen key keys
]

unfoldable pub send : RetryPolicy → Article → Destination → Sent
send policy a d = publish policy (λ n. result_of d.name a.id (d.answer a n))

unfoldable pub sent_record : Instant → Article → Sent → DeliveryRecord
sent_record now a s = record {
  article_id = a.id;
  destination = s.result.destination;
  success = s.result.success;
  attempts = s.attempts;
  external_id = s.result.external_id;
  error = s.result.error;
  created_at = now;
}

-- The keys that a success marks.
unfoldable pub mark_delivered : (Instant → String) → Article → String → List String → List String
mark_delivered iso a destination keys =
    Keys.mark (delivery_key a.id destination)
      (elim (update_key iso a destination) [ none ↦ keys | some key ↦ Keys.mark key keys ])

-- The body of the loop for one destination.
unfoldable pub publish_to :
    (Instant → String) → RetryPolicy → Instant → Article → Destination → Db → PublishResult × Db
publish_to iso policy now a d db =
    if is_published iso a d.name db.keys then (skip d.name a.id, db) else (
      (send policy a d).result,
      record db {
        history = History.add (sent_record now a (send policy a d)) db.history;
        keys =
            if (send policy a d).result.success
            then mark_delivered iso a d.name db.keys
            else db.keys;
      },
    )

unfoldable pub publish_all :
    (Instant → String)
    → RetryPolicy
    → Instant
    → Article
    → List Destination
    → Db
    → List PublishResult × Db
unfolding publish_to
publish_all iso policy now a [] db = ([], db)
publish_all iso policy now a (d ∷ more) db =
    let (result, mid) = publish_to iso policy now a d db in
    let (results, after) = publish_all iso policy now a more mid in (result ∷ results, after)

-- The counts of a PublishReport.
unfoldable pub success_count : List PublishResult → ℕ
success_count results = total (λ r. if r.success then 1 else 0) results

unfoldable pub failure_count : List PublishResult → ℕ
failure_count results = total (λ r. if not r.success && not r.skipped then 1 else 0) results

unfoldable pub skipped_count : List PublishResult → ℕ
skipped_count results = total (λ r. if r.skipped then 1 else 0) results

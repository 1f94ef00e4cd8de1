-- ===== src/Models.antt =====
-- yasinpress/database/models.py, publishing/__init__.py and publishing/history.py: the records that
-- every other part passes on. An instant is the number of microseconds since the Unix epoch in UTC,
-- and a span of time is a number of microseconds.
mod Names
unfoldable pub use Names.{job_id, delivery_key, version_of, version_key}
use yasin_press_rewrite.Base.{
  ℕ, ◌+◌, ◌*◌, ◌-◌, ◌≤◌, ◌≡◌, Bool, true, false, String, Option, none, some, List, ◌==◌, nat_eq,
  if◌then◌else◌, leb,
}

abbrev pub Instant : Type 0
Instant = ℕ

abbrev pub seconds : ℕ → ℕ
seconds n = n * 1_000_000

abbrev pub one_hour : ℕ
one_hour = 3_600_000_000

-- A value of `source_metadata`: what the program itself stores, or a provider's own JSON value.
pub data Value : Type 0 where
  text : String → Value
  flag : Bool → Value
  json : String → Value

pub record Article : Type 0 where
  pub id : String
  pub title : String
  pub url : String
  pub content : String
  pub source : String
  pub published_at : Option Instant
  pub category : Option String
  pub ai_modified : Bool
  pub event_id : Option String
  pub received_at : Instant
  pub lifecycle_state : String
  pub ai_state : String
  pub ai_error : Option String
  pub source_metadata : List (String × Value)
  pub updated_at : Option Instant
  pub fetched_at : Instant
  pub processed_at : Option Instant
  pub published_to_channel_at : Option Instant

-- A timestamp that is there and is not the epoch, which the feed parser puts for a missing one.
unfoldable pub valid_timestamp : Option Instant → Option Instant
valid_timestamp none = none
valid_timestamp (some t) = if t == 0 then none else some t

-- The loop over `[self.updated_at, self.published_at]`: the first valid one.
unfoldable pub first_timestamp : Option Instant → Option Instant → Option Instant
unfolding valid_timestamp
first_timestamp updated published = elim (valid_timestamp updated) [
  | some t ↦ some t
  | none ↦ valid_timestamp published
]

unfoldable pub news_timestamp : Article → Option Instant
unfolding first_timestamp
news_timestamp a = first_timestamp a.updated_at a.published_at

pub data Status : Type 0 where
  pending processing retrying failed dead_letter succeeded : Status

unfoldable pub is_processing : Status → Bool
is_processing processing = true
is_processing _ = false

-- `status IN ('pending','retrying')`
unfoldable pub is_waiting : Status → Bool
is_waiting pending = true
is_waiting retrying = true
is_waiting _ = false

-- `status IN ('succeeded','dead_letter')`
unfoldable pub is_finished : Status → Bool
is_finished succeeded = true
is_finished dead_letter = true
is_finished _ = false

unfoldable pub is_pending : Status → Bool
is_pending pending = true
is_pending _ = false

pub record PublicationJob : Type 0 where
  pub id : String
  pub article_id : String
  pub destination : String
  pub status : Status
  pub priority : ℕ
  pub priority_level : String
  pub source : String
  pub attempts : ℕ
  pub max_attempts : ℕ
  pub last_error : Option String
  pub lease_expires_at : Option Instant
  pub next_attempt_at : Option Instant
  pub created_at : Instant

pub record DeliveryRecord : Type 0 where
  pub article_id : String
  pub destination : String
  pub success : Bool
  pub attempts : ℕ
  pub external_id : Option String
  pub error : Option String
  pub created_at : Instant

pub record PublishResult : Type 0 where
  pub success : Bool
  pub destination : String
  pub external_id : Option String
  pub error : Option String
  pub skipped : Bool

-- What a call of `publisher.publish(article)` does: it returns a result, or raises an exception
-- whose `str` is given.
pub data Outcome : Type 0 where
  returns : PublishResult → Outcome
  raises : String → Outcome

-- A destination: its name and what its `publish` does.
pub record Publisher : Type 0 where
  pub name : String
  pub publish : Article → Outcome

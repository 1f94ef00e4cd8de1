-- ===== src/Processor/Tests.antt =====
-- The processor at concrete jobs.
use yasin_press_rewrite.Base.{
  refl, ltb, leb, ◌+◌, ◌*◌, ◌^◌, ◌&&◌, ◌≤◌, ◌≡◌, [], ◌∷◌, none, some, length, Bool, true, contains,
  max, string_eq, String, ◌==◌, if◌then◌else◌, Option, inl, inr,
}
use yasin_press_rewrite.Models.{PublicationJob, raises, Publisher, processing, pending}
use yasin_press_rewrite.Database.{Db, empty}
use yasin_press_rewrite.Samples.{noon, iso, article}
use yasin_press_rewrite.Engine.Config.{default_config}
use yasin_press_rewrite.Database.Queue.{is_eligible}
use yasin_press_rewrite.Engine.Run.{skip, failure}
use yasin_press_rewrite.Engine.Consumed.{consumed}
use yasin_press_rewrite.Processor.Cycle.{cycle_failed, cycle_deliver, cycle_success, process_cycle}
use yasin_press_rewrite.Processor.Hourly.{IsNamed, process_cycle-usage}
use yasin_press_rewrite.Processor.Outcomes.{cycle_failed-is_eligible, cycle_delivered_once}

abbrev job : PublicationJob
job = record {
  id = "a:rss";
  article_id = "a";
  destination = "rss";
  status = processing;
  priority = 10;
  priority_level = "normal";
  source = "irna";
  attempts = 1;
  max_attempts = 3;
  last_error = none;
  lease_expires_at = some 43_260_000_000;
  next_attempt_at = none;
  created_at = 43_160_000_000;
}

abbrev broken : Publisher
broken = record { name = "rss"; publish = λ a. raises "HTTP 500" }

cycle_failed-is_eligible_example :
    is_eligible
      (noon + 60_000_000)
      (cycle_failed default_config noon (failure "rss" "HTTP 500") job)
    ≡ (ltb 1 3 && leb (noon + default_config.retry_base * 2 ^ 0) (noon + 60_000_000))
cycle_failed-is_eligible_example =
    cycle_failed-is_eligible default_config noon (noon + 60_000_000) (failure "rss" "HTTP 500") job
      0 refl

cycle_delivered_once_example :
    cycle_deliver iso broken (article "a") (cycle_success iso noon job (article "a") "rss" empty).1
    ≡ skip "rss" "a"
cycle_delivered_once_example = cycle_delivered_once iso noon job (article "a") broken empty

abbrev queued : Db
queued = record empty { queue = record job { status = pending; lease_expires_at = none } ∷ [] }

abbrev at_most : String → String → Bool
at_most a b = true

abbrev stored_db : Db
stored_db = record queued { articles = article "a" ∷ [] }

abbrev only : String → Option Publisher
only name = if name == "rss" then some broken else none

stored_IsNamed : IsNamed stored_db.queue stored_db.articles
stored_IsNamed j (inl e) a (inl f) = rw (e, f) refl
stored_IsNamed j (inl e) a (inr h) = elim h [ ]
stored_IsNamed j (inr h) a m = elim h [ ]

process_cycle-usage_example :
    length (consumed noon (process_cycle iso at_most default_config only noon stored_db).db)
    ≤ max (length (consumed noon stored_db)) 10
unfolding contains
process_cycle-usage_example =
    process_cycle-usage iso at_most default_config only noon stored_db (refl, tt) stored_IsNamed

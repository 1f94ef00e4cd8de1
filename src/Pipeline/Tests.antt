-- ===== src/Pipeline/Tests.antt =====
-- The pipeline at concrete articles.
use yasin_press_rewrite.Base.{
  max, ◌+◌, ◌≤◌, ◌≡◌, refl, true, false, not, [], ◌∷◌, none, some, min, length, first, string_eq,
  union, to_set, select, sort_by, arith, String, ℕ, ◌==◌, if◌then◌else◌, ◌↔◌,
}
use yasin_press_rewrite.Database.{empty}
use yasin_press_rewrite.Database.Articles as Table
use yasin_press_rewrite.Database.Queue.{get_all_jobs}
use yasin_press_rewrite.Engine.Config.{default_config}
use yasin_press_rewrite.Engine.Consumed.{
  consumed, active_ids, processing_jobs, recent_ids, recent_successes,
}
use yasin_press_rewrite.Engine.Reach.{IsWithin}
use yasin_press_rewrite.Samples.{noon, iso, article}
use yasin_press_rewrite.Pipeline.Similar.{compare_title, Reaches, compare_title-Reaches}
use yasin_press_rewrite.Pipeline.Articles.{
  FeedItem, Texts, normalize, is_duplicate, is_valid_update,
}
use yasin_press_rewrite.Pipeline.Updates.{is_duplicate-normalize}
use yasin_press_rewrite.Pipeline.Queueing.{Signals, queue_priority, calculate_priority}
use yasin_press_rewrite.Models.{raises}
use yasin_press_rewrite.Publishing.Reliability.{RetryPolicy}
use yasin_press_rewrite.Publishing.Orchestrator.{Destination}
use yasin_press_rewrite.Pipeline.Direct.{published_last_hour, process_direct}
use yasin_press_rewrite.Pipeline.DirectLimit.{process_direct-usage}
use yasin_press_rewrite.Pipeline.FairBatch.{fair_turns, select_fair_batch}
use yasin_press_rewrite.Pipeline.Levels.{queue_priority-calculate_priority}
use yasin_press_rewrite.Pipeline.Batch.{IsOver, length-select_fair_batch}

nothing_used : IsWithin default_config (record { now = noon; db = empty })
unfolding consumed union active_ids to_set processing_jobs select get_all_jobs sort_by recent_ids
    recent_successes
nothing_used = record { keyed = tt; within = omega arith }

abbrev item : FeedItem
item = record {
  title = "Title";
  url = "https://example.org/a";
  content = "Text";
  published_at = some 43_100_000_000;
  source = "";
  media_url = none;
  media_type = none;
  updated_at = some 43_190_000_000;
  fetched_at = 43_195_000_000;
}

abbrev texts : Texts
texts = record { headline = λ t. t; strip = λ t. t; news_id = λ t url. "YP-260101-ABCDEF" }

is_duplicate-normalize_example :
    (is_duplicate (normalize texts item "irna" none (some (article "a"))) (article "a" ∷ [])
      ≡ not (is_valid_update item (some (article "a"))))
    × ((normalize texts item "irna" none (some (article "a"))).id ≡ "a")
unfolding Table.get first
is_duplicate-normalize_example =
    is_duplicate-normalize texts item "irna" none (article "a") (article "a" ∷ []) refl

abbrev signals : Signals
signals = record {
  high_hits = λ a. 1;
  medium_hits = λ a. 0;
  says_breaking = λ a. false;
  severe = λ a. true;
}

length-select_fair_batch_example :
    IsOver (fair_turns 2 (article "a" ∷ article "b" ∷ article "c" ∷ [])).1
    × (length (select_fair_batch 2 (article "a" ∷ article "b" ∷ article "c" ∷ [])) ≡ min 2 3)
length-select_fair_batch_example =
    length-select_fair_batch 2 (article "a" ∷ article "b" ∷ article "c" ∷ [])

queue_priority-calculate_priority_example :
    queue_priority false (calculate_priority signals (article "a")) ≡ ("normal", 10)
queue_priority-calculate_priority_example =
    queue_priority-calculate_priority signals (article "a") false

abbrev one_attempt : RetryPolicy
one_attempt = record { max_attempts = 1; base_delay = 0; max_delay = 0 }

abbrev offline : Destination
offline = record { name = "rss"; answer = λ a n. raises "HTTP 500" }

process_direct-usage_example :
    length (
      consumed noon
        (process_direct iso one_attempt
          (λ a. a)
          noon
          43_200_000_000
          10
          (offline ∷ [])
          (article "a" ∷ [])
          empty).1.db)
    ≤ max 10 (published_last_hour noon empty.history) + length (active_ids noon empty)
process_direct-usage_example =
    process_direct-usage iso one_attempt noon (λ a. a) 43_200_000_000 10 (offline ∷ [])
      (article "a" ∷ []) empty

-- Texts are alike if they are the same.
abbrev alike : String → String → ℕ
alike a b = if a == b then 100 else 0

compare_title-Reaches_example :
    ((compare_title (λ s. s) alike 85 "a" ("b" ∷ "a" ∷ [])).is_duplicate ≡ true)
    ↔ Reaches (λ s. s) alike 85 "a" 85 ("b" ∷ "a" ∷ [])
compare_title-Reaches_example =
    compare_title-Reaches (λ s. s) alike 85 "a" ("b" ∷ "a" ∷ []) (omega arith) refl

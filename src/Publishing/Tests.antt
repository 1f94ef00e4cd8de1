-- ===== src/Publishing/Tests.antt =====
-- A destination that fails once and then accepts.
use yasin_press_rewrite.Base.{
  ℕ, ◌≡◌, refl, true, false, [], ◌∷◌, some, none, map, max, if◌then◌else◌, ◌==◌, nat_eq,
}
use yasin_press_rewrite.Models.{PublishResult, Outcome, returns, raises}
use yasin_press_rewrite.Samples.{iso, article}
use yasin_press_rewrite.Database.{empty}
use yasin_press_rewrite.Engine.Run.{skip}
use yasin_press_rewrite.Publishing.Reliability.{RetryPolicy, delay, result_of, retry, publish}
use yasin_press_rewrite.Publishing.Retries.{IsRun, publish-IsRun}
use yasin_press_rewrite.Publishing.Orchestrator.{
  Destination, publish_to, publish_all, send, is_published, update_key,
}
use yasin_press_rewrite.Publishing.Idempotence.{publish_again}
use yasin_press_rewrite.Database.Keys
use yasin_press_rewrite.Base.{contains}

abbrev policy : RetryPolicy
policy = record { max_attempts = 3; base_delay = 250_000; max_delay = 5_000_000 }

abbrev accepted : PublishResult
accepted = record {
  success = true;
  destination = "rss";
  external_id = some "a";
  error = none;
  skipped = false;
}

abbrev flaky : ℕ → Outcome
flaky n = if n == 1 then raises "timed out" else returns accepted

abbrev rss : Destination
rss = record { name = "rss"; answer = λ a. flaky }

second_attempt : (publish policy (λ n. result_of "rss" "a" (flaky n))).slept ≡ 250_000 ∷ []
unfolding publish retry result_of delay
second_attempt = refl

publish-IsRun_example :
    IsRun policy
      (λ n. result_of "rss" "a" (flaky n))
      1
      (max 1 3)
      (publish policy (λ n. result_of "rss" "a" (flaky n)))
publish-IsRun_example = publish-IsRun policy (λ n. result_of "rss" "a" (flaky n))

publish_again_example :
    publish_all iso policy 9000
      (article "a")
      (rss ∷ [])
      (publish_all iso policy 5000 (article "a") (rss ∷ []) empty).1
    ≡ (
      map (λ (d : Destination). skip d.name "a") (rss ∷ []),
      (publish_all iso policy 5000 (article "a") (rss ∷ []) empty).1,
    )
unfolding publish_all publish_to is_published update_key Keys.seen contains send publish retry
    result_of
publish_again_example =
    publish_again iso (article "a") policy policy 5000 9000 (rss ∷ []) empty (refl, tt)

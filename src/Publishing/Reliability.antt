-- ===== src/Publishing/Reliability.antt =====
-- RetryPolicy and ReliablePublisher. A span of time is in microseconds. A publisher answers each call
-- anew, so its answers to one article are a function of the attempt.
use yasin_press_rewrite.Base.{
  ℕ, zero, suc, ◌-◌, ◌*◌, ◌^◌, String, false, List, [], ◌∷◌, some, min, max, if◌then◌else◌,
}
use yasin_press_rewrite.Models.{PublishResult, Outcome, returns, raises}

pub record RetryPolicy : Type 0 where
  pub max_attempts : ℕ
  pub base_delay : ℕ
  pub max_delay : ℕ

unfoldable pub delay : RetryPolicy → ℕ → ℕ
delay policy attempt = min (policy.base_delay * 2 ^ (attempt - 1)) policy.max_delay

-- The `try` block: an exception is a failed result that names the article.
unfoldable pub result_of : String → String → Outcome → PublishResult
result_of name id (returns r) = r
result_of name id (raises error) = record {
  success = false;
  destination = name;
  external_id = some id;
  error = some error;
  skipped = false;
}

-- What publish returns, `self.attempts` after it, and the calls of `sleeper`.
pub record Sent : Type 0 where
  pub result : PublishResult
  pub attempts : ℕ
  pub slept : List ℕ

-- The loop from one attempt on, with `left` more attempts after it. The result of the last attempt
-- is returned whether it succeeds or not.
unfoldable pub retry : RetryPolicy → (ℕ → PublishResult) → ℕ → ℕ → Sent
retry policy call zero attempt = record { result = call attempt; attempts = attempt; slept = [] }
retry policy call (suc left) attempt =
    let later : Sent = retry policy call left (suc attempt) in
    if (call attempt).success
    then record { result = call attempt; attempts = attempt; slept = [] }
    else record later { slept = delay policy attempt ∷ later.slept }

unfoldable pub publish : RetryPolicy → (ℕ → PublishResult) → Sent
publish policy call = retry policy call (max 1 policy.max_attempts - 1) 1

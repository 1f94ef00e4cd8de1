-- ===== src/Ai/Tests.antt =====
-- Providers at concrete replies.
use yasin_press_rewrite.Base.{ℕ, zero, suc, ◌<◌, ◌≡◌, refl, true, false, [], ◌∷◌, none, some, arith}
use yasin_press_rewrite.Samples.{article}
use yasin_press_rewrite.Ai.Providers.{
  AiResult, answers, raises, Provider, ProviderCall, gave, timed_out, resilient_enrich,
  fallback_enrich,
}
use yasin_press_rewrite.Ai.Failures.{
  first_success, succeeds, enriched, IsOriginal, IsSameNews, enrich_fail_open, IsFailed,
  resilient_enrich-gave, fallback_enrich-first,
}

abbrev rewrite : AiResult
rewrite = record {
  title = some "New title";
  content = none;
  provider = "mock";
  success = true;
  error = none;
  summary = some "Short";
  category = none;
  priority = none;
  breaking = false;
  metadata = [];
}

abbrev broken : Provider
broken = record { name = "broken"; enrich = λ a. raises "HTTP 500" }

abbrev working : Provider
working = record { name = "mock"; enrich = λ a. answers rewrite }

enrich_fail_open_example :
    ((enriched true (some broken) (article "a")).ai_success ≡ succeeds (article "a") (some broken))
    × ((enriched true (some broken) (article "a")).article.ai_modified
        ≡ succeeds (article "a") (some broken))
    × IsSameNews (article "a") (enriched true (some broken) (article "a")).article
    × (succeeds (article "a") (some broken) ≡ false
        → IsOriginal (article "a") (enriched true (some broken) (article "a")).article)
enrich_fail_open_example = enrich_fail_open true (some broken) (article "a")

abbrev second_time : ℕ → ProviderCall
second_time zero = timed_out
second_time (suc n) = gave rewrite

before_second : (i : ℕ) → i < 1 → IsFailed (second_time i)
before_second zero le = tt
before_second (suc i) le = absurd (omega (arith, le))

resilient_enrich-gave_example : resilient_enrich "mock" "20" second_time 2 (article "a") ≡ rewrite
resilient_enrich-gave_example =
    resilient_enrich-gave "mock" "20" second_time (article "a") 1 2 rewrite (omega arith) refl
      before_second

fallback_enrich-first_example : fallback_enrich (broken ∷ working ∷ []) (article "a") ≡ rewrite
unfolding first_success
fallback_enrich-first_example = fallback_enrich-first (article "a") (broken ∷ working ∷ [])

-- ===== src/Ai/Failures.antt =====
-- What a failing provider does to an article, and what the wrappers do about failures.
use Prim.Native.String.{◌++◌}
use yasin_press_rewrite.Base.{
  ℕ, zero, suc, ◌+◌, ◌<◌, ◌≡◌, refl, sym, ap, ◌∙◌, subst, inl, inr, String, Bool, true, false, List,
  [], ◌∷◌, Option, none, some, arith, string_eq, if◌then◌else◌, Bool-cases,
}
use yasin_press_rewrite.Models.{Article}
use yasin_press_rewrite.Ai.Providers.{
  AiResult, Reply, answers, raises, Provider, failed_result, completed, safe_enrich, ProviderCall,
  gave, not_a_result, timed_out, threw, last_error, resilient_from, resilient_enrich, fallback_from,
  fallback_enrich, text_or, append_error,
}
use yasin_press_rewrite.Ai.Enrichment.{EnrichmentResult, with_ai, rewritten, enrich}

-- The provider answers the article with a result that is a success.
unfoldable pub succeeds : Article → Option Provider → Bool
succeeds a none = false
succeeds a (some p) = elim (p.enrich a) [ raises error ↦ false | answers r ↦ r.success ]

safe_enrich-success : (p : Option Provider) (a : Article) → (safe_enrich p a).success ≡ succeeds a p
unfolding safe_enrich completed succeeds
safe_enrich-success none a = refl
safe_enrich-success (some p) a = ground arith

-- The article `b` has the texts, the category and the metadata of `a`.
abbrev pub IsOriginal : Article → Article → Type 0
IsOriginal a b = b ≡ record a {
  lifecycle_state = b.lifecycle_state;
  ai_state = b.ai_state;
  ai_error = b.ai_error;
  ai_modified = false;
}

-- It is the same news: the id, the URL, the source, the event and every timestamp.
abbrev pub IsSameNews : Article → Article → Type 0
IsSameNews a b = b ≡ record a {
  title = b.title;
  content = b.content;
  category = b.category;
  source_metadata = b.source_metadata;
  lifecycle_state = b.lifecycle_state;
  ai_state = b.ai_state;
  ai_error = b.ai_error;
  ai_modified = b.ai_modified;
}

module _ (fallback : Bool) (p : Option Provider) (a : Article) where
  abbrev pub enriched : EnrichmentResult
  enriched = enrich fallback (some (safe_enrich p)) a

  -- An article is enriched exactly if its provider is there and answers with a success, whatever
  -- else the provider does: the result and the article's ai_modified say so, the id, URL, source,
  -- event and timestamps are kept, and without a success the texts, the category and the metadata
  -- are too.
  pub enrich_fail_open :
      (enriched.ai_success ≡ succeeds a p)
      × (enriched.article.ai_modified ≡ succeeds a p)
      × IsSameNews a enriched.article
      × (succeeds a p ≡ false → IsOriginal a enriched.article)
  unfolding enrich with_ai rewritten
  enrich_fail_open = elim (Bool-cases (safe_enrich p a).success) [
    | inl good ↦
        rw (sym (safe_enrich-success p a))
          (rw (good, if◌then◌else◌) (refl, refl, refl, λ h. absurd (cc h)))
    | inr bad ↦
        rw (sym (safe_enrich-success p a)) (rw (bad, if◌then◌else◌) (refl, refl, refl, λ h. refl))
  ]

-- A call whose outcome makes the loop try again.
abbrev pub IsFailed : ProviderCall → Type 0
IsFailed timed_out = Unit
IsFailed (threw e) = Unit
IsFailed _ = ⊥

module _ (name limit : String) (call : ℕ → ProviderCall) (a : Article) where
  resilient_from-gave :
      (k left next : ℕ) (error : String) (r : AiResult)
      → k < left
      → call (next + k) ≡ gave r
      → ((i : ℕ) → i < k → IsFailed (call (next + i)))
      → resilient_from name limit call a left next error ≡ r
  unfolding resilient_from
  resilient_from-gave k zero next error r lt hit before = absurd (omega (arith, lt))
  resilient_from-gave zero (suc left) next error r lt hit before = rw (now_hit, resilient_from) refl
    where
      now_hit : call next ≡ gave r
      now_hit = ap call (omega arith) ∙ hit
  resilient_from-gave (suc k) (suc left) next error r lt hit before =
      by_call (call next) (subst (λ n. IsFailed (call n)) (omega arith) (before 0 (omega arith)))
        (λ e.
          resilient_from-gave k left (next + 1) e r (omega (arith, lt))
            (ap call (omega arith) ∙ hit)
            (λ i le.
              subst (λ n. IsFailed (call n)) (omega arith) (before (suc i) (omega (arith, le)))))
    where
      by_call :
          (c : ProviderCall)
          → IsFailed c
          → ((e : String) → resilient_from name limit call a left (next + 1) e ≡ r)
          → (elim c as (λ _. AiResult) [
            | gave s ↦ s
            | not_a_result ↦ failed_result a name "Invalid AI provider response"
            | timed_out ↦
                resilient_from name limit call a left (next + 1) (last_error limit c error)
            | threw exc ↦
                resilient_from name limit call a left (next + 1) (last_error limit c error)
          ])
            ≡ r
      by_call (gave s) f h = absurd f
      by_call not_a_result f h = absurd f
      by_call timed_out f h = h _
      by_call (threw e) f h = h _

  -- If the provider gives a result at some call below max_attempts and all calls before it time
  -- out or raise an exception, resilient enrichment returns that result.
  pub resilient_enrich-gave :
      (k max_attempts : ℕ) (r : AiResult)
      → k < max_attempts
      → call k ≡ gave r
      → ((i : ℕ) → i < k → IsFailed (call i))
      → resilient_enrich name limit call max_attempts a ≡ r
  unfolding resilient_enrich
  resilient_enrich-gave k max_attempts r lt hit before =
      resilient_from-gave k max_attempts 0 "AI provider failed" r lt (ap call (omega arith) ∙ hit)
        (λ i le. subst (λ n. IsFailed (call n)) (omega arith) (before i le))

-- The first answer that is a success.
unfoldable pub first_success : Article → List Provider → Option AiResult
first_success a [] = none
first_success a (p ∷ more) = elim (p.enrich a) [
  | raises error ↦ first_success a more
  | answers r ↦ if r.success then some r else first_success a more
]

-- A result that holds the article's own texts and no success.
abbrev pub IsFailure : Article → AiResult → Type 0
IsFailure a r = (r.success ≡ false) × (r.title ≡ some a.title) × (r.content ≡ some a.content)

abbrev pub IsOutcome : Article → Option AiResult → AiResult → Type 0
IsOutcome a none r = IsFailure a r
IsOutcome a (some s) r = r ≡ s

fallback_from-first :
    (a : Article) (providers : List Provider) (errors : List String)
    → IsOutcome a (first_success a providers) (fallback_from a providers errors)
unfolding fallback_from first_success
fallback_from-first a [] errors = (refl, refl, refl)
fallback_from-first a (p ∷ more) errors =
    by_reply (p.enrich a)
      λ e. fallback_from-first a more (append_error errors (p.name ++ (": " ++ e)))
  where
    without : String → AiResult
    without e = fallback_from a more (append_error errors (p.name ++ (": " ++ e)))

    by_success :
        (b : Bool) (r : AiResult)
        → ((e : String) → IsOutcome a (first_success a more) (without e))
        → IsOutcome a
            (if b then some r else first_success a more)
            (if b then r else without (text_or r.error "provider failed"))
    by_success true r h = refl
    by_success false r h = h (text_or r.error "provider failed")

    by_reply :
        (reply : Reply)
        → ((e : String) → IsOutcome a (first_success a more) (without e))
        → IsOutcome a
            (elim reply as (λ _. Option AiResult) [
              | raises error ↦ first_success a more
              | answers r ↦ if r.success then some r else first_success a more
            ])
            (elim reply as (λ _. AiResult) [
              | raises error ↦ without error
              | answers r ↦ if r.success then r else without (text_or r.error "provider failed")
            ])
    by_reply (raises error) h = h error
    by_reply (answers r) h = by_success r.success r h

-- The fallback provider returns the first answer that is a success, in the order of its providers,
-- and if there is none a result without success that holds the article's own title and content.
pub fallback_enrich-first :
    (a : Article) (providers : List Provider)
    → IsOutcome a (first_success a providers) (fallback_enrich providers a)
unfolding fallback_enrich
fallback_enrich-first a providers = fallback_from-first a providers []

-- ===== src/Ai/Providers.antt =====
-- ai/base.py, safe.py, resilient.py, fallback.py and the provider of factory.py that does nothing.
use Prim.Native.String.{◌++◌}
use yasin_press_rewrite.Base.{
  ℕ, zero, suc, ◌+◌, String, Bool, false, List, [], ◌∷◌, Option, none, some, ◌==◌, string_eq,
  if◌then◌else◌,
}
use yasin_press_rewrite.Models.{Article, Value}

pub record AiResult : Type 0 where
  pub title : Option String
  pub content : Option String
  pub provider : String
  pub success : Bool
  pub error : Option String
  pub summary : Option String
  pub category : Option String
  pub priority : Option String
  pub breaking : Bool
  pub metadata : List (String × Value)

-- What a call of `provider.enrich` does: it returns, or raises an exception whose `str` is given.
pub data Reply : Type 0 where
  answers : AiResult → Reply
  raises : String → Reply

pub record Provider : Type 0 where
  pub name : String
  pub enrich : Article → Reply

-- `value or default`
abbrev pub text_or : Option String → String → String
text_or none default = default
text_or (some value) default = if value == "" then default else value

-- A failed result, which holds the article's own texts.
abbrev pub failed_result : Article → String → String → AiResult
failed_result a provider error = record {
  title = some a.title;
  content = some a.content;
  provider = provider;
  success = false;
  error = some error;
  summary = none;
  category = none;
  priority = none;
  breaking = false;
  metadata = [];
}

-- SafeAIEnricher.enrich: the texts of a result without a title are completed.
unfoldable pub completed : String → Article → AiResult → AiResult
completed name a r = elim r.title [
  | some title ↦ r
  | none ↦ record r {
    title = some a.title;
    content = some (text_or r.content a.content);
    provider = if r.provider == "" then name else r.provider;
  }
]

unfoldable pub safe_enrich : Option Provider → Article → AiResult
unfolding completed
safe_enrich none a = failed_result a "none" "AI provider unavailable"
safe_enrich (some p) a = elim (p.enrich a) [
  | answers r ↦ completed p.name a r
  | raises error ↦ failed_result a p.name error
]

-- One call in the thread of ResilientAIProvider: a result, an object of another class, the time-out,
-- or an exception.
pub data ProviderCall : Type 0 where
  gave : AiResult → ProviderCall
  not_a_result timed_out : ProviderCall
  threw : String → ProviderCall

-- What the loop is left with when no call gave anything.
abbrev pub last_error : String → ProviderCall → String → String
last_error limit timed_out error = "AI provider timeout after " ++ (limit ++ "s")
last_error limit (threw exc) error = "AI provider failure: " ++ exc
last_error limit _ error = error

-- The `for` loop, with the attempts that are left and the number of the next; `limit` is the text of
-- the time-out in seconds.
unfoldable pub resilient_from :
    String → String → (ℕ → ProviderCall) → Article → (left next : ℕ) → String → AiResult
resilient_from name limit call a zero next error = failed_result a name error
resilient_from name limit call a (suc left) next error =
    let rest =
      resilient_from name limit call a left (next + 1) (last_error limit (call next) error) in
    elim (call next) [
      | gave r ↦ r
      | not_a_result ↦ failed_result a name "Invalid AI provider response"
      | timed_out ↦ rest
      | threw exc ↦ rest
    ]

unfoldable pub resilient_enrich : String → String → (ℕ → ProviderCall) → ℕ → Article → AiResult
unfolding resilient_from
resilient_enrich name limit call max_attempts a =
    resilient_from name limit call a max_attempts 0 "AI provider failed"

-- `"; ".join(errors)`
unfoldable pub join : List String → String
join [] = ""
join (e ∷ []) = e
join (e ∷ f ∷ more) = e ++ ("; " ++ join (f ∷ more))

-- `errors.append(error)`
unfoldable pub append_error : List String → String → List String
append_error [] error = error ∷ []
append_error (e ∷ errors) error = e ∷ append_error errors error

-- The `for` loop of FallbackAIProvider.enrich, with the errors so far.
unfoldable pub fallback_from : Article → List Provider → List String → AiResult
unfolding join append_error
fallback_from a [] errors = failed_result a "fallback" (join errors)
fallback_from a (p ∷ more) errors =
    let without : String → AiResult =
      λ error. fallback_from a more (append_error errors (p.name ++ (": " ++ error))) in
    elim (p.enrich a) [
      | raises error ↦ without error
      | answers r ↦ if r.success then r else without (text_or r.error "provider failed")
    ]

unfoldable pub fallback_enrich : List Provider → Article → AiResult
unfolding fallback_from
fallback_enrich providers a = fallback_from a providers []

-- NoOpAIProvider.enrich
unfoldable pub noop_enrich : Article → AiResult
noop_enrich a = failed_result a "none" "AI disabled"

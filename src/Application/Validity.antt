-- ===== src/Application/Validity.antt =====
-- What a validated configuration is.
use yasin_press_rewrite.Base.{
  ◌≡◌, ◌≤◌, refl, ◌↔◌, zero, suc, true, false, ◌==◌, none, arith, string_eq,
}
use yasin_press_rewrite.Numbers.{
  pos, negsuc, Float, finite, infinity, minus_infinity, not_a_number, is_positive, is_at_most_zero,
}
use yasin_press_rewrite.Application.Settings.{RuntimeConfig, validate}

-- The float is a positive number, infinite or not, or not a number.
abbrev pub IsPositiveOrNan : Float → Type 0
IsPositiveOrNan (finite (pos m) e) = 1 ≤ m
IsPositiveOrNan (finite (negsuc m) e) = ⊥
IsPositiveOrNan infinity = Unit
IsPositiveOrNan minus_infinity = ⊥
IsPositiveOrNan not_a_number = Unit

is_at_most_zero-IsPositiveOrNan : (x : Float) → is_at_most_zero x ≡ false → IsPositiveOrNan x
unfolding is_at_most_zero is_positive
is_at_most_zero-IsPositiveOrNan (finite (pos zero) e) h = absurd (ground (arith, h))
is_at_most_zero-IsPositiveOrNan (finite (pos (suc m)) e) h = omega arith
is_at_most_zero-IsPositiveOrNan (finite (negsuc m) e) h = absurd (ground (arith, h))
is_at_most_zero-IsPositiveOrNan infinity h = tt
is_at_most_zero-IsPositiveOrNan minus_infinity h = absurd (ground (arith, h))
is_at_most_zero-IsPositiveOrNan not_a_number h = tt

IsPositiveOrNan-is_at_most_zero : (x : Float) → IsPositiveOrNan x → is_at_most_zero x ≡ false
unfolding is_at_most_zero is_positive
IsPositiveOrNan-is_at_most_zero (finite (pos zero) e) h = absurd (omega (arith, h))
IsPositiveOrNan-is_at_most_zero (finite (pos (suc m)) e) h = refl
IsPositiveOrNan-is_at_most_zero (finite (negsuc m) e) h = absurd h
IsPositiveOrNan-is_at_most_zero infinity h = refl
IsPositiveOrNan-is_at_most_zero minus_infinity h = absurd h
IsPositiveOrNan-is_at_most_zero not_a_number h = refl

-- The texts that must be there are, the whole numbers are positive and the floats are not at most zero, and
-- the settings of Eitaa are both there or both not.
pub record IsValid (c : RuntimeConfig) : Type 0 where
  pub database : (c.database_path == "") ≡ false
  pub worker : IsPositiveOrNan c.worker_interval
  pub scheduler : IsPositiveOrNan c.scheduler_interval
  pub attempts : is_positive c.max_job_attempts ≡ true
  pub timeout : IsPositiveOrNan c.request_timeout
  pub age : IsPositiveOrNan c.max_article_age
  pub hourly : is_positive c.max_publications_per_hour ≡ true
  pub by_source : is_positive c.max_source_publications_per_hour ≡ true
  pub items : is_positive c.max_feed_items ≡ true
  pub source : (c.feed_source == "") ≡ false
  pub language : (c.language == "") ≡ false
  pub pwa : (c.pwa_output_path == "") ≡ false
  pub rss : (c.rss_output_path == "") ≡ false
  pub eitaa : (c.eitaa_token == "") ≡ (c.eitaa_channel == "")

validate-none : (c : RuntimeConfig) → validate c ≡ none → IsValid c
unfolding validate
validate-none c h = record {
  database = ground arith;
  worker = is_at_most_zero-IsPositiveOrNan c.worker_interval (ground arith);
  scheduler = is_at_most_zero-IsPositiveOrNan c.scheduler_interval (ground arith);
  attempts = ground arith;
  timeout = is_at_most_zero-IsPositiveOrNan c.request_timeout (ground arith);
  age = is_at_most_zero-IsPositiveOrNan c.max_article_age (ground arith);
  hourly = ground arith;
  by_source = ground arith;
  items = ground arith;
  source = ground arith;
  language = ground arith;
  pwa = ground arith;
  rss = ground arith;
  eitaa = ground arith;
}

IsValid-validate : (c : RuntimeConfig) → IsValid c → validate c ≡ none
unfolding validate
IsValid-validate c v =
    rw
      (
        v.database,
        IsPositiveOrNan-is_at_most_zero c.worker_interval v.worker,
        IsPositiveOrNan-is_at_most_zero c.scheduler_interval v.scheduler,
        v.attempts,
        IsPositiveOrNan-is_at_most_zero c.request_timeout v.timeout,
        IsPositiveOrNan-is_at_most_zero c.max_article_age v.age,
        v.hourly,
        v.by_source,
        v.items,
        v.source,
        v.language,
        v.pwa,
        v.rss,
        v.eitaa,
      )
      (ground arith)

-- validate raises no error exactly for a configuration whose database path, feed source, language
-- and output paths are not empty, whose attempts and limits are positive, whose intervals,
-- time-out and age of articles are positive or the float that is not a number, and whose Eitaa
-- token and channel are both there or both missing.
pub validate-IsValid : (c : RuntimeConfig) → (validate c ≡ none) ↔ IsValid c
validate-IsValid c = (validate-none c, IsValid-validate c)

-- ===== src/Samples.antt =====
-- Sample data for the tests of the parts.
use yasin_press_rewrite.Base.{
  ℕ, zero, suc, String, false, [], Option, none, some, ◌≡◌, refl, ap, arith, inl, inr, Bool-cases,
  ==_iff, string_eq, ◌==◌,
}
use yasin_press_rewrite.Models.{Instant, Article}

abbrev pub noon : Instant
noon = 43_200_000_000

abbrev pub iso : Instant → String
iso t = "2026-01-01T12:00:00+00:00"

abbrev pub article : String → Article
article id = record {
  id = id;
  title = "Title";
  url = "https://example.org/a";
  content = "Text";
  source = "irna";
  published_at = some 43_100_000_000;
  category = none;
  ai_modified = false;
  event_id = none;
  received_at = 43_150_000_000;
  lifecycle_state = "fetched";
  ai_state = "none";
  ai_error = none;
  source_metadata = [];
  updated_at = none;
  fetched_at = 43_150_000_000;
  processed_at = none;
  published_to_channel_at = none;
}

-- A time in strokes, and the strokes counted.
unfoldable pub strokes : ℕ → String
strokes zero = "T"
strokes (suc n) = String.◌∷◌ "I" (strokes n)

-- The strokes of a text: its characters but for the first one.
unfoldable pub characters : String → ℕ
characters String.[] = 0
characters (String.◌∷◌ c s) = suc (characters s)

unfoldable pub counted : String → Option ℕ
counted String.[] = none
counted (String.◌∷◌ c s) = some (characters s)

characters-strokes : (n : ℕ) → characters (strokes n) ≡ suc n
unfolding characters strokes
characters-strokes zero = refl
characters-strokes (suc n) = ap suc (characters-strokes n)

pub counted-strokes : (n : ℕ) → counted (strokes n) ≡ some n
unfolding counted strokes characters
counted-strokes zero = refl
counted-strokes (suc n) = ap some (characters-strokes n)

no_characters : characters "" ≡ 0
unfolding characters
no_characters = refl

pub strokes_given : (n : ℕ) → (strokes n == "") ≡ false
strokes_given n = elim (Bool-cases (strokes n == "")) [
  | inl e ↦ absurd (
      omega
        (arith, characters-strokes n, no_characters, ap characters ((==_iff (strokes n) "").0 e)))
  | inr e ↦ e
]

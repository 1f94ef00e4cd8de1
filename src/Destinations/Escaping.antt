-- ===== src/Destinations/Escaping.antt =====
-- What the escapes and the clean-up of an Eitaa message (publishing/eitaa.py) leave.
use yasin_press_rewrite.Base.{
  ℕ, ◌≡◌, refl, ap, ◌∙◌, Bool, true, false, ◌&&◌, ◌||◌, not, leb, List, [], ◌∷◌, inl, inr, arith,
  contains, select, Bool-cases, ==_iff, ◌==◌, nat_eq, if◌then◌else◌,
}
use yasin_press_rewrite.Models.{Instant, Article}
use yasin_press_rewrite.Database.Texts.{Text}
use yasin_press_rewrite.Destinations.Messages.{
  backslash, special, bidi_controls, md_escape, Wording, without_controls, joined_lines,
  message_lines, render,
}

-- How Markdown reads escapes: a character after a backslash stands for itself. The first argument says
-- whether a backslash has just been read.
unfoldable pub read_from : Bool → Text → Text
read_from escaped [] = []
read_from true (c ∷ text) = c ∷ read_from false text
read_from false (c ∷ text) =
    if c == backslash then read_from true text else c ∷ read_from false text

-- The characters that Telegram-style Markdown gives a meaning: * and _ for emphasis, ` for code, and the
-- square brackets of a link.
abbrev pub is_markup : ℕ → Bool
is_markup c = (c == 42) || (c == 95) || (c == 96) || (c == 91) || (c == 93)

-- No markup character is read as one, and no backslash is left over.
unfoldable pub is_plain_from : Bool → Text → Bool
is_plain_from escaped [] = not escaped
is_plain_from true (c ∷ text) = is_plain_from false text
is_plain_from false (c ∷ text) =
    if c == backslash
    then is_plain_from true text
    else not (is_markup c) && is_plain_from false text

not_backslash : (c : ℕ) → contains c special ≡ false → (c == backslash) ≡ false
unfolding contains
not_backslash c e = elim (Bool-cases (c == backslash)) [
  | inl h ↦ absurd (cc (e, ap (λ x. contains x special) ((==_iff c backslash).0 h)))
  | inr h ↦ h
]

not_markup : (c : ℕ) → contains c special ≡ false → is_markup c ≡ false
unfolding contains
not_markup c e = ground (arith, e)

-- Read with each backslash making the character after it literal, an escaped text gives the text
-- back, and no asterisk, underscore, backtick or square bracket of it stands without such a
-- backslash.
pub md_escape-read :
    (text : Text)
    → (read_from false (md_escape text) ≡ text) × (is_plain_from false (md_escape text) ≡ true)
unfolding md_escape read_from is_plain_from
md_escape-read [] = (refl, refl)
md_escape-read (c ∷ text) = by_special (contains c special) refl (md_escape-read text)
  where
    by_special :
        (b : Bool)
        → contains c special ≡ b
        → (read_from false (md_escape text) ≡ text) × (is_plain_from false (md_escape text) ≡ true)
        → (read_from false (if b then backslash ∷ c ∷ md_escape text else c ∷ md_escape text)
            ≡ c ∷ text)
          × (is_plain_from false (if b then backslash ∷ c ∷ md_escape text else c ∷ md_escape text)
              ≡ true)
    by_special true e (r, p) = (ap (λ t. c ∷ t) r, p)
    by_special false e (r, p) =
        rw (not_backslash c e, not_markup c e, if◌then◌else◌) (ap (λ t. c ∷ t) r, p)

contains-select :
    (ch x : ℕ) (text : Text)
    → contains x (select (λ c. not (c == ch)) text) ≡ (contains x text && not (x == ch))
unfolding contains select
contains-select ch x [] = refl
contains-select ch x (c ∷ text) =
    ground (arith, contains-select ch x text, ==_iff x c, ==_iff c ch, ==_iff x ch)

contains-dropped :
    (ch x : ℕ) (text : Text)
    → contains x (if contains ch text then select (λ c. not (c == ch)) text else text)
      ≡ (contains x text && not (x == ch))
contains-dropped ch x text = elim (Bool-cases (contains ch text)) [
  | inl e ↦ rw (e, if◌then◌else◌) (contains-select ch x text)
  | inr e ↦ rw (e, if◌then◌else◌) (absent (x == ch) refl e)
]
  where
    absent :
        (b : Bool)
        → (x == ch) ≡ b
        → contains ch text ≡ false
        → contains x text ≡ (contains x text && not b)
    absent true h e = rw (ap (λ y. contains y text) ((==_iff x ch).0 h) ∙ e) refl
    absent false h e = ground arith

contains-without_controls :
    (controls : List ℕ) (x : ℕ) (text : Text)
    → contains x (without_controls controls text) ≡ (contains x text && not (contains x controls))
unfolding without_controls contains
contains-without_controls [] x text = ground arith
contains-without_controls (ch ∷ controls) x text = ground (
  arith,
  contains-without_controls controls x
      (if contains ch text then select (λ c. not (c == ch)) text else text),
  contains-dropped ch x text,
)

-- The left-to-right and the right-to-left mark, the embeddings and overrides with their end, and the
-- isolates with theirs.
abbrev pub is_directional : ℕ → Bool
is_directional ch =
    (ch == 8206) || (ch == 8207) || (leb 8234 ch && leb ch 8238) || (leb 8294 ch && leb ch 8297)

directional-controls : (ch : ℕ) → is_directional ch ≡ true → contains ch bidi_controls ≡ true
unfolding contains
directional-controls ch h = ground (arith, h)

-- No message has a directional mark (U+200E, U+200F), an embedding or override or its end (U+202A
-- to U+202E), or an isolate or its end (U+2066 to U+2069), whatever the article and the libraries
-- give.
pub render_directionless :
    (w : Wording) (now : Instant) (a : Article) (ch : ℕ)
    → is_directional ch ≡ true
    → contains ch (render w now a) ≡ false
unfolding render
render_directionless w now a ch h =
    contains-without_controls bidi_controls ch (joined_lines (message_lines w now a))
    ∙ rw (directional-controls ch h) (ground arith)

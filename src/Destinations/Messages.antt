-- ===== src/Destinations/Messages.antt =====
-- publishing/eitaa.py: the text of a message, on code points. The Persian labels, the cleaning of a title and
-- of a content, the pretty dates and `urlparse(url).hostname` are parameters.
use yasin_press_rewrite.Base.{
  ℕ, String, Bool, not, List, [], ◌∷◌, ◌++◌, Option, none, some, select, contains, ◌==◌, nat_eq,
  if◌then◌else◌,
}
use yasin_press_rewrite.Models.{Instant, Article, valid_timestamp}
use yasin_press_rewrite.Database.Texts.{Text, codes, starts_with, drop}
use yasin_press_rewrite.Pipeline.Queueing.{is_breaking}

abbrev pub backslash : ℕ
backslash = 92

-- _MD_SPECIAL_RE: the characters * _ ` [ ] and the backslash.
abbrev pub special : List ℕ
special = 42 ∷ 95 ∷ 96 ∷ 91 ∷ 93 ∷ backslash ∷ []

-- _BIDI_CONTROLS
abbrev pub bidi_controls : List ℕ
bidi_controls = 8234 ∷ 8235 ∷ 8236 ∷ 8237 ∷ 8238 ∷ 8206 ∷ 8207 ∷ 8294 ∷ 8295 ∷ 8296 ∷ 8297 ∷ []

-- _md_escape
unfoldable pub md_escape : Text → Text
md_escape [] = []
md_escape (c ∷ text) =
    if contains c special then backslash ∷ c ∷ md_escape text else c ∷ md_escape text

-- The Persian lines and labels of a message, and what the libraries make of texts, times and URLs.
pub record Wording : Type 0 where
  pub breaking_line : Text
  pub ai_line : Text
  pub unknown_time : Text
  pub updated_label : Text
  pub published_label : Text
  pub clock : Text
  pub source_label : Text
  pub unnamed_source : Text
  pub clean_title : String → Text
  pub clean_content : String → Text
  pub pretty : Instant → Text
  pub hostname : String → Option Text
  pub severe : Article → Bool

-- `hostname.removeprefix("www.")`
abbrev without_www : Text → Text
without_www host = if starts_with (codes "www.") host then drop 4 host else host

-- _source_label
unfoldable pub source_name_of : Wording → Article → Text
source_name_of w a = elim (w.hostname a.url) [
  | none ↦ w.unnamed_source
  | some [] ↦ w.unnamed_source
  | some (c ∷ host) ↦ without_www (c ∷ host)
]

-- time_str
unfoldable pub time_line : Wording → Article → Text
time_line w a = elim (valid_timestamp a.updated_at) [
  | some t ↦ w.updated_label ++ w.pretty t ++ w.clock
  | none ↦ elim (valid_timestamp a.published_at) [
    | some t ↦ w.published_label ++ w.pretty t ++ w.clock
    | none ↦ w.unknown_time
  ]
]

abbrev bold : Text → Text
bold text = 42 ∷ (text ++ 42 ∷ [])

unfoldable pub message_lines : Wording → Instant → Article → List Text
unfolding md_escape source_name_of time_line
message_lines w now a =
    (if is_breaking now a.published_at (w.severe a) then w.breaking_line ∷ [] ∷ [] else [])
    ++ (bold (md_escape (w.clean_title a.title)) ∷ [] ∷ md_escape (w.clean_content a.content) ∷ [])
    ++ (if a.ai_modified then [] ∷ w.ai_line ∷ [] else [])
    ++ ([] ∷ time_line w a ∷ (w.source_label ++ md_escape (source_name_of w a)) ∷ [])

-- `"\n".join(lines)`
unfoldable pub joined_lines : List Text → Text
joined_lines [] = []
joined_lines (line ∷ []) = line
joined_lines (line ∷ next ∷ lines) = line ++ 10 ∷ joined_lines (next ∷ lines)

-- The loop that takes the controls out of the text.
unfoldable pub without_controls : List ℕ → Text → Text
without_controls [] text = text
without_controls (ch ∷ controls) text =
    without_controls controls (if contains ch text then select (λ c. not (c == ch)) text else text)

unfoldable pub render : Wording → Instant → Article → Text
unfolding message_lines joined_lines without_controls
render w now a = without_controls bidi_controls (joined_lines (message_lines w now a))

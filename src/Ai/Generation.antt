-- ===== src/Ai/Generation.antt =====
-- ai/yasin_ai.py: YasinAIProvider.enrich. The generation service and the parser of its JSON text are
-- parameters.
use yasin_press_rewrite.Base.{
  String, Bool, false, true, not, List, [], ◌∷◌, Option, none, some, ◌==◌, string_eq, if◌then◌else◌,
}
use yasin_press_rewrite.Models.{Article, Value, text, json}
use yasin_press_rewrite.Ai.Providers.{AiResult, failed_result, text_or}

-- What the service answers.
pub record Generated : Type 0 where
  pub success : Bool
  pub error : Option String
  pub answer : String
  pub model : Option String
  pub provider : Option String

-- A value of the parsed object: a text, or another one with its truth value.
pub data Field : Type 0 where
  words : String → Field
  other : Bool → Field

-- `payload.get(key)` is `none` for a missing key.
abbrev pub Payload : Type 0
Payload = String → Option Field

-- _text
unfoldable pub field_text : (String → String) → Option Field → Option String
field_text strip none = none
field_text strip (some (other b)) = none
field_text strip (some (words s)) = if strip s == "" then none else some (strip s)

-- `bool(payload.get("breaking", False))`
unfoldable pub is_true : Option Field → Bool
is_true none = false
is_true (some (other b)) = b
is_true (some (words s)) = not (s == "")

abbrev pub versions : List (String × Value)
versions = ("yasin_ai_version", text "1.1.4") ∷ ("capability", text "generation") ∷ []

abbrev model_value : Option String → Value
model_value none = json "null"
model_value (some m) = text m

-- An answer that cannot be used.
unfoldable pub rejected : Article → String → AiResult
rejected a error = record (failed_result a "yasin-ai" error) { metadata = versions }

-- An answer with its parsed object.
unfoldable pub understood : (String → String) → Article → Generated → Payload → AiResult
unfolding field_text is_true
understood strip a g payload = record {
  title = some (text_or (field_text strip (payload "title")) a.title);
  content = some (text_or (field_text strip (payload "content")) a.content);
  provider = text_or g.provider "yasin-ai";
  success = true;
  error = none;
  summary = field_text strip (payload "summary");
  category = field_text strip (payload "category");
  priority = field_text strip (payload "priority");
  breaking = is_true (payload "breaking");
  metadata =
      ("yasin_ai_version", text "1.1.4")
      ∷ ("capability", text "generation")
      ∷ ("model", model_value g.model)
      ∷ ("provider", text (text_or g.provider "yasin-ai"))
      ∷ [];
}

unfoldable pub interpret :
    (String → String) → (String → Option Payload) → Article → Generated → AiResult
unfolding rejected understood
interpret strip parse_json a g =
    if not g.success
    then rejected a (text_or g.error "Yasin-AI generation failed")
    else elim (parse_json g.answer) [
      | none ↦ rejected a "Invalid Yasin-AI structured response"
      | some payload ↦ understood strip a g payload
    ]

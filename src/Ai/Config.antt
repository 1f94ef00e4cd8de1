-- ===== src/Ai/Config.antt =====
-- ai/config.py and ai/factory.py: whether the configured provider can be used, and which one is built.
use yasin_press_rewrite.Base.{
  ℕ, String, Bool, true, false, ◌&&◌, not, Option, some_and, ◌==◌, string_eq, if◌then◌else◌,
}
use yasin_press_rewrite.Ai.Providers.{text_or}

pub record AiConfig : Type 0 where
  pub enabled : Bool
  pub provider : String
  pub base_url : String
  pub model : Option String
  pub api_key_env : String
  pub timeout_seconds : ℕ

-- `bool(value)` of a text or None
abbrev pub is_given : Option String → Bool
is_given value = some_and value (λ s. not (s == ""))

-- The environment is a parameter.
unfoldable pub api_key : (String → Option String) → AiConfig → Option String
api_key env c = env c.api_key_env

unfoldable pub usable : (String → Option String) → AiConfig → Bool
unfolding api_key
usable env c =
    if not c.enabled
    then false
    else if c.provider == "yasin-ai"
    then true
    else is_given (api_key env c) && (not (c.base_url == "") && is_given c.model)

-- What create_ai_provider builds, behind the resilient wrapper but for `no_op`.
pub data Chosen : Type 0 where
  no_op : Chosen
  yasin_ai : Option String → Chosen
  openai_compatible : (base_url api_key model : String) → Chosen

-- `installed`: the package `yasinai` can be imported.
unfoldable pub create_ai_provider : (String → Option String) → Bool → AiConfig → Chosen
unfolding usable
create_ai_provider env installed c =
    if not (usable env c)
    then no_op
    else if c.provider == "yasin-ai"
    then (if installed then yasin_ai c.model else no_op)
    else openai_compatible c.base_url (text_or (api_key env c) "") (text_or c.model "")

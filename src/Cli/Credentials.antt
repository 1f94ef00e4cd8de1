-- ===== src/Cli/Credentials.antt =====
-- _startup_channel_setup of cli/main.py: the lines of the file .env, and the token and the channel of Eitaa. The
-- functions of `str` are parameters.
use yasin_press_rewrite.Base.{
  String, Bool, ◌||◌, List, [], ◌∷◌, ◌++◌, Option, none, some, Dict, lookup, put, map, any, ◌==◌,
  string_eq, if◌then◌else◌,
}

abbrev pub token_key : String
token_key = "YASINPRESS_EITAA_TOKEN"

abbrev pub channel_key : String
channel_key = "YASINPRESS_EITAA_CHANNEL"

-- `line.split("=", 1)`, if "=" is in the line; `strip`; `strip("\"").strip("'")`; whether
-- `lstrip().startswith("#")`; and `f"{key}={value}"`.
pub record Lines : Type 0 where
  pub split : String → Option (String × String)
  pub strip : String → String
  pub unquote : String → String
  pub is_comment : String → Bool
  pub entry : String → String → String

abbrev pub or_empty : Option String → String
or_empty none = ""
or_empty (some s) = s

-- `a or b`
abbrev pub or_else : String → String → String
or_else a b = if a == "" then b else a

pub data ChannelSetup : Type 0 where
  unconfigured : ChannelSetup
  configured : String → String → List String → ChannelSetup

module _ (l : Lines) where
  unfoldable pub load_line : String → Dict String String → Dict String String
  load_line line values = elim (l.split line) [
    | none ↦ values
    | some (key, value) ↦
        if l.is_comment line then values else put (l.strip key) (l.unquote (l.strip value)) values
  ]

  -- load_saved
  unfoldable pub load_saved : List String → Dict String String → Dict String String
  unfolding load_line
  load_saved [] values = values
  load_saved (line ∷ lines) values = load_saved lines (load_line line values)

  unfoldable pub line_key : String → String
  line_key line = elim (l.split line) [ none ↦ "" | some (key, value) ↦ l.strip key ]

  -- The line of save_saved in place of an old one.
  unfoldable pub saved_line : String → String → String → String
  unfolding line_key
  saved_line token channel line =
      if line_key line == token_key
      then l.entry token_key token
      else if line_key line == channel_key
      then l.entry channel_key channel
      else line

  unfoldable pub missing_line : String → String → List String → List String
  unfolding line_key
  missing_line key value lines =
      if any (λ line. line_key line == key) lines then [] else l.entry key value ∷ []

  -- save_saved
  unfoldable pub save_saved : String → String → List String → List String
  unfolding saved_line missing_line
  save_saved token channel lines =
      map (saved_line token channel) lines
      ++ (missing_line token_key token lines ++ missing_line channel_key channel lines)

  unfoldable pub saved_value : String → List String → String
  unfolding load_saved
  saved_value key lines = or_empty (lookup key (load_saved lines []))

  -- _startup_channel_setup: the two variables of the environment, what is typed, and the lines of the
  -- file; `none` is an end of input or an interrupt.
  unfoldable pub startup_channel_setup :
      String → String → Option (String × String) → List String → ChannelSetup
  unfolding save_saved saved_value
  startup_channel_setup env_token env_channel typed lines =
      let (typed_token, typed_channel) = stripped typed in
      let token : String =
        or_else typed_token (or_else (l.strip env_token) (saved_value token_key lines)) in
      let channel : String =
        or_else typed_channel (or_else (l.strip env_channel) (saved_value channel_key lines)) in
      if (token == "") || (channel == "")
      then unconfigured
      else configured token channel (save_saved token channel lines)
    where
      stripped : Option (String × String) → String × String
      stripped none = ("", "")
      stripped (some (t, c)) = (l.strip t, l.strip c)

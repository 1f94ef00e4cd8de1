-- ===== src/Cli/Tests.antt =====
-- The start of the command line.
use Prim.Native.String.{◌++◌}
use yasin_press_rewrite.Base.{String, [], ◌∷◌, none, some, List, string_eq, ◌==◌, if◌then◌else◌}
use yasin_press_rewrite.Cli.Credentials.{Lines, token_key, channel_key}

-- The functions of `str` on the lines of the test.
abbrev lines : Lines
lines = record {
  split = λ line.
      if line == "YASINPRESS_EITAA_TOKEN=abc"
      then some (token_key, "abc")
      else if line == "YASINPRESS_EITAA_CHANNEL=@news"
      then some (channel_key, "@news")
      else if line == "YASINPRESS_EITAA_TOKEN=old"
      then some (token_key, "old")
      else none;
  strip = λ s. s;
  unquote = λ s. s;
  is_comment = λ line. line == "# settings";
  entry = λ key value. key ++ ("=" ++ value);
}

abbrev file : List String
file = "# settings" ∷ "YASINPRESS_EITAA_TOKEN=old" ∷ []

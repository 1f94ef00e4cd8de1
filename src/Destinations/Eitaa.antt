-- ===== src/Destinations/Eitaa.antt =====
-- publishing/eitaa.py and delivery.py: how the answer to a request becomes a result. The message text
-- and the exchange over HTTP are parameters.
use Prim.Native.String.{◌++◌}
use yasin_press_rewrite.Base.{
  ℕ, String, Bool, false, not, Option, none, some, ◌==◌, string_eq, if◌then◌else◌,
}
use yasin_press_rewrite.Models.{Article, PublishResult}
use yasin_press_rewrite.Numbers.{Float, is_at_most_zero}
use yasin_press_rewrite.Engine.Run.{failure}
use yasin_press_rewrite.Destinations.Rss.{accepted_result}

pub record EitaaPublisher : Type 0 where
  pub token : String
  pub channel : String
  pub api_base : String
  pub timeout : Float

-- What the constructor may raise, or the publisher.
pub data Built : Type 0 where
  invalid : String → Built
  built : EitaaPublisher → Built

-- The constructor: `strip` is `str.strip`, and `strip_slash` is `rstrip("/")`.
unfoldable pub eitaa_publisher :
    (String → String) → (String → String) → String → String → String → Float → Built
eitaa_publisher strip strip_slash token channel api_base timeout =
    if strip token == ""
    then invalid "Eitaa token must not be empty"
    else if strip channel == ""
    then invalid "Eitaa channel must not be empty"
    else if is_at_most_zero timeout
    then invalid "Eitaa timeout must be positive"
    else built (record {
      token = strip token;
      channel = strip channel;
      api_base = strip_slash api_base;
      timeout = timeout;
    })

-- The answer of the API: an error of HTTP, a text that is not JSON, JSON that is no object, or an
-- object with `ok`, the text of a true `error`, and the id of the message in its `result`.
pub data EitaaAnswer : Type 0 where
  http_error invalid_json : String → EitaaAnswer
  no_object : EitaaAnswer
  object : Bool → Option String → Option String → EitaaAnswer

-- `error or 'unknown error'`
abbrev error_or : Option String → String
error_or none = "unknown error"
error_or (some e) = if e == "" then "unknown error" else e

-- `external_id or self.channel`
abbrev id_or : String → Option String → String
id_or channel none = channel
id_or channel (some id) = if id == "" then channel else id

abbrev rejected : Option String → PublishResult
rejected error = failure "eitaa" ("Eitaa API rejected request: " ++ error_or error)

unfoldable pub publish_eitaa : EitaaPublisher → EitaaAnswer → PublishResult
publish_eitaa p (http_error e) = failure "eitaa" ("Eitaa request failed: " ++ e)
publish_eitaa p (invalid_json e) = failure "eitaa" ("Eitaa returned invalid JSON: " ++ e)
publish_eitaa p no_object = rejected none
publish_eitaa p (object ok error message_id) =
    if not ok then rejected error else accepted_result "eitaa" (id_or p.channel message_id)

-- delivery.py: a response of the transport.
pub record HttpResponse : Type 0 where
  pub ok : Bool
  pub status_code : ℕ
  pub body : String

-- HTTPDelivery.deliver; `digits` writes a number.
unfoldable pub http_deliver : (ℕ → String) → String → Article → HttpResponse → PublishResult
http_deliver digits target a response =
    if response.ok then accepted_result target a.id else record {
      success = false;
      destination = target;
      external_id = some a.id;
      error = some ("HTTP " ++ (digits response.status_code ++ (": " ++ response.body)));
      skipped = false;
    }

-- ===== src/Api/Requests.antt =====
-- api/request.py, api/responses.py and api/auth.py. The functions of `str`, urlsplit and parse_qs are
-- parameters.
use Prim.Native.String.{◌++◌}
use yasin_press_rewrite.Base.{
  ℕ, String, Bool, ◌&&◌, not, List, [], ◌∷◌, Option, none, some, Dict, lookup, put, select, ◌==◌,
  string_eq, if◌then◌else◌,
}

-- upper and lower, urlsplit as the path and the query, parse_qs with blank values kept, `partition(" ")`
-- as what is before and after, and isascii.
pub record Web : Type 0 where
  pub upper : String → String
  pub lower : String → String
  pub urlsplit : String → String × String
  pub parse_qs : String → Dict String (List String)
  pub partition : String → String × String
  pub is_ascii : String → Bool

pub record Request (B : Type 0) : Type 0 where
  pub method : String
  pub path : String
  pub headers : Dict String String
  pub query : Dict String (List String)
  pub body : Option B

unfoldable pub query_values : Dict String (List String) → Dict String (List String)
query_values [] = []
query_values ((k, items) ∷ more) = (k, select (λ v. not (v == "")) items) ∷ query_values more

module _ (web : Web) where
  unfoldable pub lowered_headers : Dict String String → Dict String String → Dict String String
  lowered_headers [] done = done
  lowered_headers ((k, v) ∷ headers) done = lowered_headers headers (put (web.lower k) v done)

  module _ {B : Type 0} where
    unfoldable pub from_target : String → String → Dict String String → Option B → Request B
    unfolding lowered_headers query_values
    from_target target method headers body =
        let (path, query) = web.urlsplit target in
        record {
          method = web.upper method;
          path = if path == "" then "/" else path;
          headers = lowered_headers headers [];
          query = query_values (web.parse_qs query);
          body = body;
        }

    unfoldable pub query_value : String → Option String → Request B → Option String
    query_value name default r = elim (lookup name r.query) [
      | none ↦ default
      | some [] ↦ default
      | some (v ∷ vs) ↦ some v
    ]

    unfoldable pub bearer_token : Request B → Option String
    bearer_token r =
        let (scheme, token) =
          web.partition (elim (lookup "authorization" r.headers) [ none ↦ "" | some v ↦ v ]) in
        if (web.lower scheme == "bearer") && not (token == "") then some token else none

    -- `request.bearer_token or ""`
    abbrev pub supplied : Request B → String
    supplied request = elim (bearer_token request) [ none ↦ "" | some t ↦ t ]

  -- TokenAuth.verify: `none` is the TypeError of compare_digest for a text that is not ASCII.
  unfoldable pub verify : String → String → Option Bool
  verify token supplied =
      if web.is_ascii token && web.is_ascii supplied then some (token == supplied) else none

-- A response, whose body is what a handler gives, or the fields of an error.
pub data Body (V : Type 0) : Type 0 where
  content : V → Body V
  error_fields : Dict String String → Body V

pub record Response (V : Type 0) : Type 0 where
  pub status_code : ℕ
  pub body : Body V
  pub headers : Dict String String

-- `", ".join(allowed)`
unfoldable pub comma_list : List String → String
comma_list [] = ""
comma_list (m ∷ []) = m
comma_list (m ∷ n ∷ more) = m ++ (", " ++ comma_list (n ∷ more))

module _ {V : Type 0} where
  abbrev pub ok : V → Response V
  ok v = record { status_code = 200; body = content v; headers = [] }

  abbrev pub created : V → Response V
  created v = record { status_code = 201; body = content v; headers = [] }

  abbrev pub bad_request : String → Response V
  bad_request message = record {
    status_code = 400;
    body = error_fields (("error", "bad_request") ∷ ("message", message) ∷ []);
    headers = [];
  }

  abbrev pub unauthorized : Response V
  unauthorized = record {
    status_code = 401;
    body = error_fields (("error", "unauthorized") ∷ []);
    headers = ("WWW-Authenticate", "Bearer") ∷ [];
  }

  abbrev pub not_found : Response V
  not_found = record {
    status_code = 404;
    body = error_fields (("error", "not_found") ∷ []);
    headers = [];
  }

  abbrev pub method_not_allowed : List String → Response V
  method_not_allowed allowed = record {
    status_code = 405;
    body = error_fields (("error", "method_not_allowed") ∷ []);
    headers = ("Allow", comma_list allowed) ∷ [];
  }

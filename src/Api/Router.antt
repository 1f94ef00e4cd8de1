-- ===== src/Api/Router.antt =====
-- api/app.py: ApiApp.
use yasin_press_rewrite.Base.{
  String, Bool, ◌&&◌, not, List, [], ◌∷◌, Option, none, some, map, select, first, ◌==◌, string_eq,
  if◌then◌else◌,
}
use yasin_press_rewrite.Database.Texts.{codes, starts_with}
use yasin_press_rewrite.Api.Requests.{
  Web, Request, from_target, supplied, verify, Response, unauthorized, not_found,
  method_not_allowed,
}

-- A handler that takes the request, or the legacy one, which takes nothing.
pub data Handler (B V : Type 0) : Type 0 where
  takes_request : (Request B → Response V) → Handler B V
  takes_nothing : Response V → Handler B V

-- An entry of the dictionary `routes`, whose key is the method and the path.
pub record Route (B V : Type 0) : Type 0 where
  pub method : String
  pub path : String
  pub handler : Request B → Response V
  pub protected : Bool

pub record ApiApp (B V : Type 0) : Type 0 where
  pub routes : List (Route B V)
  pub auth : Option String

-- What handle decides before it answers.
pub data Decision (B V : Type 0) : Type 0 where
  no_path denied type_error : Decision B V
  other_methods : List String → Decision B V
  serves : Route B V → Decision B V

module _ {B V : Type 0} where
  abbrev adapted : Handler B V → Request B → Response V
  adapted (takes_request f) r = f r
  adapted (takes_nothing response) r = response

  abbrev pub is_route : String → String → Route B V → Bool
  is_route method path r = (r.method == method) && (r.path == path)

  -- `self.routes[(method, path)] = route`
  unfoldable pub put_route : Route B V → List (Route B V) → List (Route B V)
  put_route r [] = r ∷ []
  put_route r (old ∷ routes) =
      if is_route r.method r.path old then r ∷ routes else old ∷ put_route r routes

  unfoldable pub find_route : String → String → List (Route B V) → Option (Route B V)
  find_route method path routes = first (is_route method path) routes

  -- The answer for a request without a route: the methods under which its path is registered, if there are
  -- any.
  unfoldable pub refused : List String → Decision B V
  refused [] = no_path
  refused (m ∷ ms) = other_methods (m ∷ ms)

  unfoldable pub checked : Route B V → Option Bool → Decision B V
  checked r none = type_error
  checked r (some verified) = if verified then serves r else denied

  module _ (web : Web) where
    -- route: `none` is the ValueError.
    unfoldable pub route : String → Handler B V → String → Bool → ApiApp B V → Option (ApiApp B V)
    unfolding put_route
    route path handler method protected app =
        if not (starts_with (codes "/") (codes path))
        then none
        else some (record app {
          routes =
              put_route
                (record {
                  method = web.upper method;
                  path = path;
                  handler = adapted handler;
                  protected = protected;
                })
                app.routes;
        })

    unfoldable pub guarded : Route B V → Option String → Request B → Decision B V
    unfolding checked verify
    guarded r auth request = if not r.protected then serves r else elim auth [
      | none ↦ denied
      | some token ↦ checked r (verify web token (supplied web request))
    ]

    unfoldable pub decide : ApiApp B V → Request B → Decision B V
    unfolding find_route guarded refused
    decide app request = elim (find_route request.method request.path app.routes) [
      | none ↦ refused (
          map (λ (r : Route B V). r.method)
            (select (λ (r : Route B V). r.path == request.path) app.routes))
      | some r ↦ guarded r app.auth request
    ]

    -- handle: `none` is the TypeError.
    unfoldable pub handle :
        ApiApp B V → String → String → List (String × String) → Option B → Option (Response V)
    unfolding decide from_target
    handle app target method headers body =
        let request : Request B = from_target web target method headers body in
        elim (decide app request) [
          | no_path ↦ some not_found
          | other_methods allowed ↦ some (method_not_allowed allowed)
          | denied ↦ some unauthorized
          | type_error ↦ none
          | serves r ↦ some (r.handler request)
        ]

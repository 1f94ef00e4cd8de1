-- ===== src/Api/Tests.antt =====
-- The API at concrete requests.
use yasin_press_rewrite.Base.{
  ◌≡◌, ◌≤◌, ◌<◌, ◌↔◌, refl, String, true, [], ◌∷◌, none, some, arith, string_eq, first, lookup,
}
use yasin_press_rewrite.Api.Requests.{Web, Request, ok, bearer_token, verify}
use yasin_press_rewrite.Api.Router.{Route, ApiApp, find_route, decide, guarded, checked}
use yasin_press_rewrite.Api.Access.{MayEnter, decide_serves}
use yasin_press_rewrite.Api.Pages.{Page, from_query, offset, pages, from_query-pages}
use yasin_press_rewrite.Numbers.{pos}

-- A web whose authorization headers are "Bearer <token>" for one token.
abbrev web : Web
web = record {
  upper = λ s. s;
  lower = λ s. s;
  urlsplit = λ s. (s, "");
  parse_qs = λ s. [];
  partition = λ s. ("bearer", s);
  is_ascii = λ s. true;
}

abbrev status_route : Route String String
status_route = record {
  method = "GET";
  path = "/status";
  handler = λ r. ok "fine";
  protected = true;
}

abbrev app : ApiApp String String
app = record { routes = status_route ∷ []; auth = some "secret" }

abbrev request : Request String
request = record {
  method = "GET";
  path = "/status";
  headers = ("authorization", "secret") ∷ [];
  query = [];
  body = none;
}

decide_serves_example :
    (find_route "GET" "/status" app.routes ≡ some status_route)
    × MayEnter web app request status_route
unfolding decide guarded checked verify find_route first bearer_token lookup
decide_serves_example = decide_serves web app request status_route refl

abbrev third_page : Page
third_page = from_query (λ s. some (pos 3)) (some "3") none 100

from_query-pages_example :
    (1 ≤ third_page.number)
    × (1 ≤ third_page.size)
    × (third_page.size ≤ 100)
    × ((offset third_page < 70) ↔ (third_page.number ≤ pages 70 third_page))
from_query-pages_example = from_query-pages (λ s. some (pos 3)) (some "3") none 100 70 (omega arith)

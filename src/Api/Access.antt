-- ===== src/Api/Access.antt =====
-- Who is served by the router, and what a registration changes.
use yasin_press_rewrite.Base.{
  ◌≡◌, refl, sym, ap, ◌∙◌, subst, ◌⊎◌, inl, inr, Option-cases, String, Bool, true, false, ◌&&◌, not,
  List, [], ◌∷◌, Option, none, some, arith, first, ◌==◌, string_eq, ==_iff, if◌then◌else◌,
}
use yasin_press_rewrite.Api.Requests.{Web, Request, bearer_token, supplied, verify}
use yasin_press_rewrite.Api.Router.{
  Route, ApiApp, Decision, denied, serves, is_route, put_route, find_route, decide, refused,
  guarded, checked,
}

module _ {B : Type 0} (web : Web) where
  -- The request bears the token, or bears none where the token is the empty text.
  abbrev pub Bears : String → Request B → Type 0
  Bears token request =
      (bearer_token web request ≡ some token) ⊎ ((bearer_token web request ≡ none) × (token ≡ ""))

  supplied-Bears :
      (token : String) (request : Request B) → token ≡ supplied web request → Bears token request
  supplied-Bears token request e = by_bearer (bearer_token web request) refl e
    where
      by_bearer :
          (b : Option String)
          → bearer_token web request ≡ b
          → token ≡ (elim b as (λ _. String) [ none ↦ "" | some t ↦ t ])
          → Bears token request
      by_bearer none h e = inr (h, e)
      by_bearer (some t) h e = inl (h ∙ ap some (sym e))

module _ {B V : Type 0} where
  -- A registration is found under its own method and path, in place of what was there, and every
  -- other method and path finds what it found before.
  pub find_route-put_route :
      (r : Route B V) (method path : String) (routes : List (Route B V))
      → find_route method path (put_route r routes)
        ≡ (if is_route method path r then some r else find_route method path routes)
  unfolding find_route put_route first
  find_route-put_route r method path [] = ground arith
  find_route-put_route r method path (old ∷ routes) = ground (
    arith,
    find_route-put_route r method path routes,
    ==_iff r.method method,
    ==_iff r.path path,
    ==_iff old.method method,
    ==_iff old.path path,
    ==_iff old.method r.method,
    ==_iff old.path r.path,
  )

  module _ (web : Web) where
    -- The route is open, or the application has a token that the request bears.
    abbrev pub MayEnter : ApiApp B V → Request B → Route B V → Type 0
    MayEnter app request r =
        (r.protected ≡ false)
        ⊎ ((token : String) × (app.auth ≡ some token) × Bears web token request)

    refused_serves : (l : List String) (r : Route B V) → refused l ≡ serves r → ⊥
    unfolding refused
    refused_serves [] r e = cc e
    refused_serves (m ∷ l) r e = cc e

    same_route : {x y : Route B V} → (serves x ≡ serves y) → x ≡ y
    same_route {x} e = ap (route_or x) e
      where
        route_or : Route B V → Decision B V → Route B V
        route_or d (serves z) = z
        route_or d _ = d

    guarded_serves :
        (route r : Route B V) (app : ApiApp B V) (request : Request B)
        → guarded web route app.auth request ≡ serves r
        → (route ≡ r) × MayEnter app request route
    unfolding guarded checked verify
    guarded_serves route r app request e = by_protected route.protected refl e
      where
        ascii : String → Bool
        ascii token = web.is_ascii token && web.is_ascii (supplied web request)

        by_equal :
            (b : Bool) (token : String)
            → app.auth ≡ some token
            → (token == supplied web request) ≡ b
            → (if b then serves route else denied) ≡ serves r
            → (route ≡ r) × MayEnter app request route
        by_equal true token a h e = (
          same_route e,
          inr (
            token,
            a,
            supplied-Bears web token request ((==_iff token (supplied web request)).0 h),
          ),
        )
        by_equal false token a h e = absurd (cc e)

        by_ascii :
            (b : Bool) (token : String)
            → app.auth ≡ some token
            → checked route (if b then some (token == supplied web request) else none) ≡ serves r
            → (route ≡ r) × MayEnter app request route
        by_ascii true token a e = by_equal (token == supplied web request) token a refl e
        by_ascii false token a e = absurd (cc e)

        by_auth :
            (auth : Option String)
            → app.auth ≡ auth
            → (elim auth as (λ _. Decision B V) [
              | none ↦ denied
              | some token ↦ checked route (verify web token (supplied web request))
            ])
              ≡ serves r
            → (route ≡ r) × MayEnter app request route
        by_auth none a e = absurd (cc e)
        by_auth (some token) a e = by_ascii (ascii token) token a e

        by_protected :
            (b : Bool)
            → route.protected ≡ b
            → (if not b then serves route else elim app.auth as (λ _. Decision B V) [
              | none ↦ denied
              | some token ↦ checked route (verify web token (supplied web request))
            ])
              ≡ serves r
            → (route ≡ r) × MayEnter app request route
        by_protected true p e = by_auth app.auth refl e
        by_protected false p e = (same_route e, inl p)

    -- A request is served by the route of its method and its path only, and by a protected one
    -- only if the application has a token and the request bears it, or bears none where the token
    -- of the application is the empty text.
    pub decide_serves :
        (app : ApiApp B V) (request : Request B) (r : Route B V)
        → decide web app request ≡ serves r
        → (find_route request.method request.path app.routes ≡ some r) × MayEnter app request r
    unfolding decide
    decide_serves app request r e =
        elim (Option-cases (find_route request.method request.path app.routes)) [
          | inl f ↦ absurd (refused_serves _ r (rw (f, decide) at e))
          | inr (route, f) ↦
              let (same, may) = guarded_serves route r app request (rw (f, decide) at e) in
              (f ∙ ap some same, subst (MayEnter app request) same may)
        ]

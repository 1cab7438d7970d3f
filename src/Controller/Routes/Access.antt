-- ===== src/Controller/Routes/Access.antt =====
-- Whom the routes of app/analytics/controller/routes.go answer.
use mathlib.Core.List.{Memᴰ}
use mathlib.Core.Path.{subst}
use food_delivery_analytics.Prelude.{sym, String, ◌≡◌, refl, Option, some, List}
use food_delivery_analytics.Prelude.Int.{ℤ}
use food_delivery_analytics.Effect.{Action, ok}
use food_delivery_analytics.Mongo.Driver.{Driver}
use food_delivery_analytics.Analytics.Enums.{perm_analytics_read}
use food_delivery_analytics.Service.Calendar.{Calendar}
use food_delivery_analytics.Http.{Request, Response}
use food_delivery_analytics.Rbac.Cache.{PermissionCache}
use food_delivery_analytics.Rbac.Require.{Claims, Verdict, serve_next, refused, require}
use food_delivery_analytics.Rbac.Require.Verdicts.{Grants, require_serves}
use food_delivery_analytics.Auth.Token.{Jwt, done, hmac, verify_token}
use food_delivery_analytics.Auth.Tokens.Checking.{verify_token_sound}
use food_delivery_analytics.Auth.Authenticate.{
  IncomingRequest, Passage, pass_on, turned_away, aborted, extract_token, authenticate,
}
use food_delivery_analytics.Auth.Authenticate.Passages.{authenticate-pass_on}
use food_delivery_analytics.Controller.Routes.{
  answered, Route, run_if_granted, guarded, run_if_passed, serve_request, register_routes,
}

module _ {W : Type 0} (get_permissions : String → Action (PermissionCache W) (List String)) where
  run_if_granted-answered :
      {A : Type 0} (handler : W → Response A × W) (v : Verdict × PermissionCache W)
      (response : Response A)
      → (run_if_granted get_permissions handler v).0 ≡ answered response
      → (v.0 ≡ serve_next) × ((handler v.1.world).0 ≡ response)
  run_if_granted-answered handler (serve_next, pc) response h = (refl, cc h)
  run_if_granted-answered handler (refused x, pc) response h = cc h

  -- The handler behind a guard answers only with a permission, in the world the check has left.
  pub guarded-answered :
      {A : Type 0} (perm : String) (handler : Request → W → Response A × W) (claims : Option Claims)
      (r : Request) (pc : PermissionCache W) (response : Response A)
      → (guarded get_permissions perm handler claims r pc).0 ≡ answered response
      → ((c : Claims) × (claims ≡ some c) × Grants get_permissions perm c pc)
        × ((handler r (require get_permissions perm claims pc).1.world).0 ≡ response)
  unfolding guarded
  guarded-answered perm handler claims r pc response h =
      let (served, same) =
        run_if_granted-answered (handler r) (require get_permissions perm claims pc) response h in
      ((require_serves get_permissions perm claims pc).0 served, same)

  module _ (jwt : Jwt) (secret : String) (r : IncomingRequest) (pc : PermissionCache W) where
    -- The request carries the claims in a token that is signed with the service's secret.
    abbrev pub Presents : Claims → Type 0
    Presents c =
        jwt.Signed (extract_token r) hmac secret
        × (verify_token jwt (extract_token r) secret ≡ done (ok c))

    run_if_passed-answered :
        (route : Route W) (p : Passage) (response : Response (List route.Rows))
        → (run_if_passed get_permissions route r.request pc p).0 ≡ answered response
        → (c : Claims) × (p ≡ pass_on c)
          × ((route.serve (some c) r.request pc).0 ≡ answered response)
    run_if_passed-answered route (pass_on c) response h = (c, refl, h)
    run_if_passed-answered route (turned_away x) response h = cc h
    run_if_passed-answered route aborted response h = cc h

    -- A route that answers has been called for claims that the request presents.
    pub serve_request-answered :
        (route : Route W) (response : Response (List route.Rows))
        → (serve_request get_permissions jwt secret route r pc).0 ≡ answered response
        → (c : Claims) × Presents c × ((route.serve (some c) r.request pc).0 ≡ answered response)
    unfolding serve_request
    serve_request-answered route response h =
        let (c, passed, same) =
          run_if_passed-answered route (authenticate jwt secret r) response h in
        let verified = authenticate-pass_on jwt secret r c passed in
        let (signed, rest) = verify_token_sound jwt secret (extract_token r) c verified in
        (c, (signed, verified), same)

    guarded_answers_allowed :
        {A : Type 0} (pattern : String) (handler : Request → W → Response (List A) × W)
        (route : Route W)
        → route ≡ record {
          pattern = pattern;
          Rows = A;
          serve = guarded get_permissions perm_analytics_read handler;
        }
        → (response : Response (List route.Rows))
        → (serve_request get_permissions jwt secret route r pc).0 ≡ answered response
        → (c : Claims) × Presents c × Grants get_permissions perm_analytics_read c pc
    guarded_answers_allowed {A} pattern handler route is =
        subst
          (λ (route : Route W).
            (response : Response (List route.Rows))
            → (serve_request get_permissions jwt secret route r pc).0 ≡ answered response
            → (c : Claims) × Presents c × Grants get_permissions perm_analytics_read c pc)
          (sym is)
          λ response h.
            let (c, presented, served) = serve_request-answered _ response h in
            let ((d, same, grants), rest) =
              guarded-answered perm_analytics_read handler (some c) r.request pc response served in
            let is_same : c ≡ d = cc same in (c, presented, rw is_same grants)

    -- A route lets its handler answer only a request with a token that is signed with the
    -- service's secret, and whose claims are granted the permission to read analytics.
    pub serve_request_answers_allowed :
        (db : Driver W) (cal : Calendar) (atoi : String → Option ℤ) (route : Route W)
        (response : Response (List route.Rows))
        → Memᴰ route (register_routes get_permissions db cal atoi)
        → (serve_request get_permissions jwt secret route r pc).0 ≡ answered response
        → (c : Claims) × Presents c × Grants get_permissions perm_analytics_read c pc
    serve_request_answers_allowed db cal atoi route response (Memᴰ.head is) =
        guarded_answers_allowed _ _ route is response
    serve_request_answers_allowed db cal atoi route response (Memᴰ.tail (Memᴰ.head is)) =
        guarded_answers_allowed _ _ route is response
    serve_request_answers_allowed db cal atoi route response
          (Memᴰ.tail (Memᴰ.tail (Memᴰ.head is))) =
        guarded_answers_allowed _ _ route is response
    serve_request_answers_allowed db cal atoi route response
          (Memᴰ.tail (Memᴰ.tail (Memᴰ.tail (Memᴰ.head is)))) =
        guarded_answers_allowed _ _ route is response
    serve_request_answers_allowed db cal atoi route response
          (Memᴰ.tail (Memᴰ.tail (Memᴰ.tail (Memᴰ.tail none_left)))) =
        elim none_left [ ]

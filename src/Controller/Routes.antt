-- ===== src/Controller/Routes.antt =====
-- app/analytics/controller/routes.go, and a request's way to a route (lib/boot/boot.go, the group
-- behind `Authenticate`). The router of chi, which finds the route by its pattern, is not modelled.
pub mod Access
pub mod Report
use food_delivery_analytics.Prelude.{String, Option, none, some, List, [], ◌∷◌, ◌++◌, map}
use food_delivery_analytics.Prelude.Int.{ℤ}
use food_delivery_analytics.Effect.{Action}
use food_delivery_analytics.Mongo.Driver.{Driver}
use food_delivery_analytics.Analytics.Enums.{perm_analytics_read}
use food_delivery_analytics.Service.Calendar.{Calendar}
use food_delivery_analytics.Http.{Request, Response, wrap}
use food_delivery_analytics.Rbac.Cache.{PermissionCache}
use food_delivery_analytics.Rbac.Require.{Claims, Verdict, serve_next, refused, require}
use food_delivery_analytics.Auth.Token.{Jwt}
use food_delivery_analytics.Auth.Authenticate.{
  IncomingRequest, Passage, pass_on, turned_away, aborted, authenticate,
}
use food_delivery_analytics.Dto.Rows.{RestaurantDayDto, BranchDayDto, PlatformDayDto, ProductDayDto}
use food_delivery_analytics.Controller.{
  get_restaurant_days, get_branch_days, get_product_days, get_platform_days,
}

-- What a request meets: an error of a middleware, the handler's answer, or a panic.
pub data Served (A : Type 0) : Type 0 where
  stopped : Response (Unit {0}) → Served A
  answered : Response A → Served A
  crashed : Served A

-- A pattern, and what serves its requests once their claims are known.
pub record Route (W : Type 0) : Type 1 where
  pub pattern : String
  pub Rows : Type 0
  pub serve : Option Claims → Request → PermissionCache W → Served (List Rows) × PermissionCache W

module _ {W : Type 0} (get_permissions : String → Action (PermissionCache W) (List String)) where
  -- `r.With(rbac.Require(pc, perm)).Get(pattern, handler)`
  abbrev pub run_if_granted :
      {A : Type 0}
      → (W → Response A × W)
      → Verdict × PermissionCache W
      → Served A × PermissionCache W
  run_if_granted handler (refused response, pc) = (stopped response, pc)
  run_if_granted handler (serve_next, pc) =
      let (response, w) = handler pc.world in (answered response, record pc { world = w })

  unfoldable pub guarded :
      {A : Type 0}
      → String
      → (Request → W → Response A × W)
      → Option Claims
      → Request
      → PermissionCache W
      → Served A × PermissionCache W
  guarded perm handler claims r pc =
      run_if_granted (handler r) (require get_permissions perm claims pc)

  abbrev pub run_if_passed :
      (route : Route W)
      → Request
      → PermissionCache W
      → Passage
      → Served (List route.Rows) × PermissionCache W
  run_if_passed route r pc (pass_on claims) = route.serve (some claims) r pc
  run_if_passed route r pc (turned_away response) = (stopped response, pc)
  run_if_passed route r pc aborted = (crashed, pc)

  -- A request of a route in the group that uses `Authenticate`.
  unfoldable pub serve_request :
      Jwt
      → String
      → (route : Route W) → IncomingRequest
      → PermissionCache W
      → Served (List route.Rows) × PermissionCache W
  serve_request jwt secret route r pc = run_if_passed route r.request pc (authenticate jwt secret r)

  module _ (db : Driver W) (cal : Calendar) (atoi : String → Option ℤ) where
    abbrev pub restaurant_days_route : Route W
    restaurant_days_route = record {
      pattern = "/api/v1/analytics/restaurants/{restaurantId}/days";
      Rows = RestaurantDayDto;
      serve = guarded perm_analytics_read (λ r. wrap (get_restaurant_days db cal atoi r));
    }

    abbrev pub branch_days_route : Route W
    branch_days_route = record {
      pattern = "/api/v1/analytics/restaurants/{restaurantId}/branches/{branchId}/days";
      Rows = BranchDayDto;
      serve = guarded perm_analytics_read (λ r. wrap (get_branch_days db cal atoi r));
    }

    abbrev pub product_days_route : Route W
    product_days_route = record {
      pattern = "/api/v1/analytics/restaurants/{restaurantId}/products/days";
      Rows = ProductDayDto;
      serve = guarded perm_analytics_read (λ r. wrap (get_product_days db cal atoi r));
    }

    abbrev pub platform_days_route : Route W
    platform_days_route = record {
      pattern = "/api/v1/analytics/platform/days";
      Rows = PlatformDayDto;
      serve = guarded perm_analytics_read (λ r. wrap (get_platform_days db cal atoi r));
    }

    abbrev pub register_routes : List (Route W)
    register_routes =
        restaurant_days_route ∷ branch_days_route ∷ product_days_route ∷ platform_days_route ∷ []

-- ===== src/Controller.antt =====
-- app/analytics/controller/analytics_controller.go
pub mod Replies
pub mod SameBranch
pub mod Routes
use food_delivery_analytics.Prelude.{String, Option, List}
use food_delivery_analytics.Prelude.Int.{ℤ}
use food_delivery_analytics.Effect.{Action, pure, lift, ◌>>=◌}
use food_delivery_analytics.Mongo.Driver.{Driver}
use food_delivery_analytics.Service.Calendar.{Calendar}
use food_delivery_analytics.Service.Queries
use food_delivery_analytics.Http.{Request, Response, send_success}
use food_delivery_analytics.Dto.Requests.{
  parse_get_branch_days_request, parse_get_restaurant_days_request, parse_get_platform_days_request,
  parse_get_product_days_request,
}
use food_delivery_analytics.Dto.Rows.{
  RestaurantDayDto, BranchDayDto, PlatformDayDto, ProductDayDto, to_branch_day_dtos,
  to_restaurant_day_dtos, to_product_day_dtos, to_platform_day_dtos,
}

module _ {W : Type 0} (db : Driver W) (cal : Calendar) (atoi : String → Option ℤ) where
  unfoldable pub get_branch_days : Request → Action W (Response (List BranchDayDto))
  get_branch_days r = do
    req ← lift (parse_get_branch_days_request cal atoi r)
    rows ←
        Queries.get_branch_days db req.branch_id
          (record { from_date = req.from_date; to_date = req.to_date })
    pure (send_success 200 (to_branch_day_dtos rows))

  unfoldable pub get_restaurant_days : Request → Action W (Response (List RestaurantDayDto))
  get_restaurant_days r = do
    req ← lift (parse_get_restaurant_days_request cal atoi r)
    rows ←
        Queries.get_restaurant_days db req.restaurant_id
          (record { from_date = req.from_date; to_date = req.to_date })
    pure (send_success 200 (to_restaurant_day_dtos rows))

  unfoldable pub get_product_days : Request → Action W (Response (List ProductDayDto))
  get_product_days r = do
    req ← lift (parse_get_product_days_request cal atoi r)
    rows ←
        Queries.get_product_days db req.restaurant_id
          (record { from_date = req.from_date; to_date = req.to_date })
    pure (send_success 200 (to_product_day_dtos rows))

  unfoldable pub get_platform_days : Request → Action W (Response (List PlatformDayDto))
  get_platform_days r = do
    req ← lift (parse_get_platform_days_request cal atoi r)
    rows ←
        Queries.get_platform_days db (record { from_date = req.from_date; to_date = req.to_date })
    pure (send_success 200 (to_platform_day_dtos rows))

-- ===== src/Service/Queries.antt =====
-- The read side of app/analytics/service/analytics_service.go.
use food_delivery_analytics.Prelude.{suc, ◌/◌, List, map, text_gtb, if◌then◌else◌}
use food_delivery_analytics.Prelude.Int.{neg_ℕ, ℤ, pos, negsuc, ltb_ℤ}
use food_delivery_analytics.Effect.{Action, pure, fail, app_fault, ◌>>=◌}
use food_delivery_analytics.Mongo.Driver.{Driver}
use food_delivery_analytics.Analytics.Errors.{err_invalid_date_range}
use food_delivery_analytics.Analytics.Entity.{RestaurantDay, BranchDay, PlatformDay, ProductDay}
use food_delivery_analytics.Analytics.Types.{
  RestaurantDayResponse, BranchDayResponse, PlatformDayResponse, ProductDayResponse, DateRange,
}
use food_delivery_analytics.Repository.RestaurantDay
use food_delivery_analytics.Repository.BranchDay
use food_delivery_analytics.Repository.PlatformDay
use food_delivery_analytics.Repository.ProductDay

-- Go's `/` on `int64`: the quotient is truncated towards 0. (It panics on 0; the code tests first.)
unfoldable pub quot_ℤ : ℤ → ℤ → ℤ
quot_ℤ (pos a) (pos b) = pos (a / b)
quot_ℤ (pos a) (negsuc b) = neg_ℕ (a / suc b)
quot_ℤ (negsuc a) (pos b) = neg_ℕ (suc a / b)
quot_ℤ (negsuc a) (negsuc b) = pos (suc a / suc b)

-- `avgOrder` of the loops below.
unfoldable pub avg_order : ℤ → ℤ → ℤ
unfolding quot_ℤ
avg_order revenue_sum orders_count =
    if ltb_ℤ (pos 0) orders_count then quot_ℤ revenue_sum orders_count else pos 0

abbrev pub product_response : ProductDay → ProductDayResponse
product_response row = record {
  product_id = row.product_id;
  date = row.date;
  orders_count = row.orders_count;
  quantity_sold = row.quantity_sold;
}

abbrev pub branch_response : BranchDay → BranchDayResponse
branch_response row = record {
  date = row.date;
  orders_count = row.orders_count;
  revenue_minor = row.revenue_sum;
  currency = row.currency;
  avg_order_minor = avg_order row.revenue_sum row.orders_count;
}

abbrev pub restaurant_response : RestaurantDay → RestaurantDayResponse
restaurant_response row = record {
  date = row.date;
  orders_count = row.orders_count;
  revenue_minor = row.revenue_sum;
  currency = row.currency;
  avg_order_minor = avg_order row.revenue_sum row.orders_count;
}

abbrev pub platform_response : PlatformDay → PlatformDayResponse
platform_response row = record {
  date = row.date;
  orders_count = row.orders_count;
  revenue_minor = row.revenue_sum;
  currency = row.currency;
  avg_order_minor = avg_order row.revenue_sum row.orders_count;
}

module _ {W : Type 0} (db : Driver W) where
  unfoldable pub get_product_days : ℤ → DateRange → Action W (List ProductDayResponse)
  get_product_days restaurant_id range =
      if text_gtb range.from_date range.to_date
      then fail (app_fault err_invalid_date_range)
      else (ProductDay.find_by_restaurant_and_range db restaurant_id range.from_date range.to_date
          >>= λ rows. pure (map product_response rows))

  unfoldable pub get_branch_days : ℤ → DateRange → Action W (List BranchDayResponse)
  get_branch_days branch_id range =
      if text_gtb range.from_date range.to_date
      then fail (app_fault err_invalid_date_range)
      else (BranchDay.find_by_branch_and_range db branch_id range.from_date range.to_date
          >>= λ rows. pure (map branch_response rows))

  unfoldable pub get_restaurant_days : ℤ → DateRange → Action W (List RestaurantDayResponse)
  get_restaurant_days restaurant_id range =
      if text_gtb range.from_date range.to_date
      then fail (app_fault err_invalid_date_range)
      else (RestaurantDay.find_by_restaurant_and_range db restaurant_id range.from_date
            range.to_date
          >>= λ rows. pure (map restaurant_response rows))

  unfoldable pub get_platform_days : DateRange → Action W (List PlatformDayResponse)
  get_platform_days range =
      if text_gtb range.from_date range.to_date
      then fail (app_fault err_invalid_date_range)
      else (PlatformDay.find_by_range db range.from_date range.to_date >>= λ rows.
          pure (map platform_response rows))

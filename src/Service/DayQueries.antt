-- ===== src/Service/DayQueries.antt =====
-- The day queries of analytics_service.go: `GetRestaurantDays`, `GetBranchDays`, `GetPlatformDays`.
pub mod Restaurant
pub mod Branch
pub mod Platform
use food_delivery_analytics.Prelude.{
  String, ◌≡◌, refl, ap, sym, ◌∙◌, ◌&&◌, true, false, List, [], ◌∷◌, map, arith, inl, inr, Bool,
  text_gtb, Bool-cases, if◌then◌else◌,
}
use food_delivery_analytics.Prelude.Int.{ℤ}
use food_delivery_analytics.Effect.{Action, Fault, Result, ok, err, app_fault, fail}
use food_delivery_analytics.Mongo.Document.{
  Document, Filter, int_of, int, text, equals, between, holds, matches,
}
use food_delivery_analytics.Mongo.Driver.{Driver, ReadLaws, decode_all}
use food_delivery_analytics.Mongo.Totals.{total}
use food_delivery_analytics.Mongo.Rows.{AsksRange, decode_int-int_of, sum_of}
use food_delivery_analytics.Analytics.Errors.{err_invalid_date_range}
use food_delivery_analytics.Analytics.Enums.{
  collection_agg_restaurant_day, collection_agg_branch_day, collection_agg_platform_day,
}
use food_delivery_analytics.Analytics.Types.{
  RestaurantDayResponse, BranchDayResponse, PlatformDayResponse, DateRange,
}
use food_delivery_analytics.Analytics.Entity
use food_delivery_analytics.Repository.RestaurantDay
use food_delivery_analytics.Repository.BranchDay
use food_delivery_analytics.Repository.PlatformDay
use food_delivery_analytics.Repository.RestaurantDay.Effects.{restaurant_totals}
use food_delivery_analytics.Repository.BranchDay.Effects.{branch_totals}
use food_delivery_analytics.Repository.PlatformDay.Effects.{platform_totals}
use food_delivery_analytics.Repository.DayTotals.{day_totals}
use food_delivery_analytics.Repository.Book.{book}
use food_delivery_analytics.Service.Queries.{
  get_restaurant_days, get_branch_days, get_platform_days, restaurant_response, branch_response,
  platform_response,
}
use food_delivery_analytics.Service.Reports.{
  ReadsDay, IsReport, query-IsReport, between_same, agreeing_totals,
}

-- What succeeds behind a guard has passed it.
pub past_guard :
    {W A : Type 0} (b : Bool) (e : Fault) (run : Action W A) (w : W) (a : A)
    → ((if b then fail e else run) w).0 ≡ ok a
    → (b ≡ false) × ((run w).0 ≡ ok a)
past_guard true e run w a h = cc h
past_guard false e run w a h = (refl, h)

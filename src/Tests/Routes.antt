-- ===== src/Tests/Routes.antt =====
-- Requests of the routes, on the database that holds an order.
use mathlib.Core.List.{Memᴰ}
use food_delivery_analytics.Prelude.{ℕ, String, ◌≡◌, refl, List}
use food_delivery_analytics.Prelude.Int.{ℤ, ◌+ℤ◌}
use food_delivery_analytics.Effect.{Action, ok}
use food_delivery_analytics.Mongo.Document.{Time}
use food_delivery_analytics.Mongo.Memory.{Memory, memory}
use food_delivery_analytics.Mongo.Memory.Reads.{memory-ReadLaws}
use food_delivery_analytics.Mongo.Driver.{decode_all}
use food_delivery_analytics.Analytics.Enums.{perm_analytics_read}
use food_delivery_analytics.Repository.RestaurantDay
use food_delivery_analytics.Repository.BranchDay
use food_delivery_analytics.Repository.PlatformDay
use food_delivery_analytics.Repository.ProductDay
use food_delivery_analytics.Service.Events.{parse_event_date, upsert_items, handle_order_placed}
use food_delivery_analytics.Service.Queries.{quot_ℤ, avg_order}
use food_delivery_analytics.Service.Queries
use food_delivery_analytics.Service.Reports.{IsReport}
use food_delivery_analytics.Service.DayRows.{AreRowsOf}
use food_delivery_analytics.Http.{success}
use food_delivery_analytics.Rbac.Cache.{PermissionCache, new_permission_cache, get_permissions}
use food_delivery_analytics.Rbac.Require.{Claims, require}
use food_delivery_analytics.Rbac.Require.Verdicts.{Grants}
use food_delivery_analytics.Auth.Token.{int_of_float, verify_token}
use food_delivery_analytics.Auth.Authenticate.{extract_token, authenticate}
use food_delivery_analytics.Dto.Requests.{parse_get_restaurant_days_request}
use food_delivery_analytics.Dto.Rows.{to_restaurant_day_dtos}
use food_delivery_analytics.Dto.Parsing.{IsId}
use food_delivery_analytics.Controller.{get_restaurant_days}
use food_delivery_analytics.Controller.Replies.{AsksDays, restaurant_dto_fields}
use food_delivery_analytics.Controller.Routes.{restaurant_days_route, guarded, serve_request}
use food_delivery_analytics.Controller.Routes.Access.{Presents, serve_request_answers_allowed}
use food_delivery_analytics.Controller.Routes.Report.{
  IsAllowed, world_checked, restaurant_days_route_success,
}
use food_delivery_analytics.Tests.Fixtures.{calendar, first_day, second_day}
use food_delivery_analytics.Tests.Events.{ordered}
use food_delivery_analytics.Tests.Queries.{restaurant_rows}
use food_delivery_analytics.Tests.Permissions.{analyst_permissions}
use food_delivery_analytics.Tests.Replies.{atoi, asked_for}
use food_delivery_analytics.Tests.Tokens.{jwt, by_header}

abbrev now : Memory → Time × Memory
now m = (m.time, m)

abbrev core : String → Action Memory (List String)
core role m = (ok analyst_permissions, m)

abbrev permissions_lookup : String → Action (PermissionCache Memory) (List String)
permissions_lookup = get_permissions now core 60

abbrev cold : PermissionCache Memory
cold = new_permission_cache ordered

serve_request_answers_allowed_example :
    (c : Claims) × Presents permissions_lookup jwt "key" (by_header (asked_for "7")) cold c
    × Grants permissions_lookup perm_analytics_read c cold
unfolding serve_request guarded authenticate extract_token verify_token int_of_float require
    get_permissions get_restaurant_days parse_get_restaurant_days_request
    Queries.get_restaurant_days RestaurantDay.find_by_restaurant_and_range RestaurantDay.decode_row
    decode_all ◌+ℤ◌ avg_order quot_ℤ handle_order_placed parse_event_date upsert_items
    RestaurantDay.upsert BranchDay.upsert PlatformDay.upsert ProductDay.upsert
serve_request_answers_allowed_example =
    serve_request_answers_allowed permissions_lookup jwt "key" (by_header (asked_for "7")) cold
      memory calendar atoi (restaurant_days_route permissions_lookup memory calendar atoi)
      (success 200 (to_restaurant_day_dtos restaurant_rows)) (Memᴰ.head refl) refl

restaurant_days_route_success_example :
    (c : Claims) × Presents permissions_lookup jwt "key" (by_header (asked_for "7")) cold c
    × IsAllowed memory memory-ReadLaws calendar atoi now core 60 c cold
    × (◌≡◌ {A = ℕ} 200 200)
    × AsksDays calendar (asked_for "7")
    × ((id : ℤ) × IsId atoi ((asked_for "7").url_param "restaurantId") id
        × IsReport
            (λ x. x.date)
            (λ x. x.orders_count)
            (λ x. x.revenue_minor)
            (RestaurantDay.range_filter id first_day second_day)
            first_day
            second_day
            ((world_checked memory memory-ReadLaws calendar atoi now core 60 c cold).stored
              "agg_restaurant_day")
            (to_restaurant_day_dtos restaurant_rows)
        × AreRowsOf restaurant_dto_fields "restaurant_id" id first_day second_day
            ((world_checked memory memory-ReadLaws calendar atoi now core 60 c cold).stored
              "agg_restaurant_day")
            (to_restaurant_day_dtos restaurant_rows))
unfolding serve_request guarded authenticate extract_token verify_token int_of_float require
    get_permissions get_restaurant_days parse_get_restaurant_days_request
    Queries.get_restaurant_days RestaurantDay.find_by_restaurant_and_range RestaurantDay.decode_row
    decode_all ◌+ℤ◌ avg_order quot_ℤ handle_order_placed parse_event_date upsert_items
    RestaurantDay.upsert BranchDay.upsert PlatformDay.upsert ProductDay.upsert
restaurant_days_route_success_example =
    restaurant_days_route_success memory memory-ReadLaws calendar atoi now core 60 jwt "key"
      (by_header (asked_for "7")) cold 200 (to_restaurant_day_dtos restaurant_rows) refl

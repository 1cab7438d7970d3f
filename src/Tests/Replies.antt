-- ===== src/Tests/Replies.antt =====
-- Requests for days, on the database that holds an order.
use food_delivery_analytics.Prelude.{
  ℕ, String, ◌≡◌, ◌↔◌, refl, Option, none, some, ◌==◌, arith, if◌then◌else◌,
}
use food_delivery_analytics.Prelude.Int.{ℤ, pos, negsuc, ◌+ℤ◌}
use food_delivery_analytics.Effect.{ok}
use food_delivery_analytics.Mongo.Memory.{memory}
use food_delivery_analytics.Mongo.Memory.Reads.{memory-ReadLaws}
use food_delivery_analytics.Mongo.Driver.{decode_all}
use food_delivery_analytics.Repository.RestaurantDay
use food_delivery_analytics.Repository.BranchDay
use food_delivery_analytics.Repository.PlatformDay
use food_delivery_analytics.Repository.ProductDay
use food_delivery_analytics.Service.Events.{parse_event_date, upsert_items, handle_order_placed}
use food_delivery_analytics.Service.Queries.{quot_ℤ, avg_order}
use food_delivery_analytics.Service.Queries
use food_delivery_analytics.Service.Reports.{IsReport}
use food_delivery_analytics.Service.Averages.{IsAverage, avg_order-IsAverage}
use food_delivery_analytics.Service.DayRows.{AreRowsOf}
use food_delivery_analytics.Http.{Request, failure, ErrorBody, wrap}
use food_delivery_analytics.Dto.Requests.{
  parse_get_restaurant_days_request, parse_get_branch_days_request,
}
use food_delivery_analytics.Dto.Rows.{to_restaurant_day_dtos, to_branch_day_dtos}
use food_delivery_analytics.Dto.Parsing.{IsId, IsDate, parse_get_branch_days_request_accepts}
use food_delivery_analytics.Controller.{get_restaurant_days, get_branch_days}
use food_delivery_analytics.Controller.Replies.{
  AsksDays, restaurant_dto_fields, branch_dto_fields, get_restaurant_days_success,
  get_branch_days_success, get_restaurant_days_bad_request,
}
use food_delivery_analytics.Controller.SameBranch.{get_branch_days_any_restaurant}
use food_delivery_analytics.Tests.Fixtures.{calendar, first_day, second_day}
use food_delivery_analytics.Tests.Events.{ordered}
use food_delivery_analytics.Tests.Queries.{restaurant_rows, branch_rows}

abbrev pub atoi : String → Option ℤ
atoi s = if s == "7" then some (pos 7) else if s == "3" then some (pos 3) else none

-- A request for both days of branch 3, in the name of a restaurant.
abbrev pub asked_for : String → Request
asked_for restaurant = record {
  url_param = λ k. if k == "restaurantId" then restaurant else "3";
  query = λ k. if k == "from" then first_day else second_day;
}

-- One with a restaurant that is no number.
abbrev malformed : Request
malformed = asked_for "seven"

get_restaurant_days_success_example :
    (◌≡◌ {A = ℕ} 200 200)
    × AsksDays calendar (asked_for "7")
    × ((id : ℤ) × IsId atoi ((asked_for "7").url_param "restaurantId") id
        × IsReport
            (λ x. x.date)
            (λ x. x.orders_count)
            (λ x. x.revenue_minor)
            (RestaurantDay.range_filter id first_day second_day)
            first_day
            second_day
            (ordered.stored "agg_restaurant_day")
            (to_restaurant_day_dtos restaurant_rows)
        × AreRowsOf restaurant_dto_fields "restaurant_id" id first_day second_day
            (ordered.stored "agg_restaurant_day")
            (to_restaurant_day_dtos restaurant_rows))
unfolding get_restaurant_days parse_get_restaurant_days_request Queries.get_restaurant_days
    RestaurantDay.find_by_restaurant_and_range RestaurantDay.decode_row decode_all ◌+ℤ◌ avg_order
    quot_ℤ handle_order_placed parse_event_date upsert_items RestaurantDay.upsert BranchDay.upsert
    PlatformDay.upsert ProductDay.upsert
get_restaurant_days_success_example =
    get_restaurant_days_success memory memory-ReadLaws calendar atoi (asked_for "7") ordered 200
      (to_restaurant_day_dtos restaurant_rows) refl

get_branch_days_success_example :
    (◌≡◌ {A = ℕ} 200 200)
    × AsksDays calendar (asked_for "7")
    × ((id : ℤ) × IsId atoi ((asked_for "7").url_param "branchId") id
        × IsReport
            (λ x. x.date)
            (λ x. x.orders_count)
            (λ x. x.revenue_minor)
            (BranchDay.range_filter id first_day second_day)
            first_day
            second_day
            (ordered.stored "agg_branch_day")
            (to_branch_day_dtos branch_rows)
        × AreRowsOf branch_dto_fields "branch_id" id first_day second_day
            (ordered.stored "agg_branch_day")
            (to_branch_day_dtos branch_rows))
unfolding get_branch_days parse_get_branch_days_request Queries.get_branch_days
    BranchDay.find_by_branch_and_range BranchDay.decode_row decode_all ◌+ℤ◌ avg_order quot_ℤ
    handle_order_placed parse_event_date upsert_items RestaurantDay.upsert BranchDay.upsert
    PlatformDay.upsert ProductDay.upsert
get_branch_days_success_example =
    get_branch_days_success memory memory-ReadLaws calendar atoi (asked_for "7") ordered 200
      (to_branch_day_dtos branch_rows) refl

get_restaurant_days_bad_request_example :
    (body : ErrorBody) × (wrap (get_restaurant_days memory calendar atoi malformed) ordered
      ≡ (failure 400 body, ordered))
get_restaurant_days_bad_request_example =
    get_restaurant_days_bad_request memory memory-ReadLaws calendar atoi malformed ordered
      (λ id h days. cc (h.0))

get_branch_days_any_restaurant_example :
    wrap (get_branch_days memory calendar atoi (asked_for "7")) ordered
    ≡ wrap (get_branch_days memory calendar atoi (asked_for "3")) ordered
get_branch_days_any_restaurant_example =
    get_branch_days_any_restaurant memory calendar atoi (asked_for "7") (asked_for "3") (pos 7)
      (pos 3) ordered (refl, omega arith) (refl, omega arith) refl refl

avg_order-IsAverage_example : IsAverage (negsuc 1500) (pos 2) (avg_order (negsuc 1500) (pos 2))
avg_order-IsAverage_example = avg_order-IsAverage (negsuc 1500) (pos 2)

parse_get_branch_days_request_accepts_example :
    (parse_get_branch_days_request calendar atoi (asked_for "7")
      ≡ ok (record {
        restaurant_id = pos 7;
        branch_id = pos 3;
        from_date = first_day;
        to_date = second_day;
      }))
    ↔ (IsId atoi "7" (pos 7)
        × IsId atoi "3" (pos 3)
        × (first_day ≡ first_day)
        × IsDate calendar first_day
        × (second_day ≡ second_day)
        × IsDate calendar second_day)
parse_get_branch_days_request_accepts_example =
    parse_get_branch_days_request_accepts calendar atoi (asked_for "7") (record {
      restaurant_id = pos 7;
      branch_id = pos 3;
      from_date = first_day;
      to_date = second_day;
    })

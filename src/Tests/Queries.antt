-- ===== src/Tests/Queries.antt =====
-- The day queries on a database that holds an order.
use food_delivery_analytics.Prelude.{◌≡◌, refl, false, List, [], ◌∷◌, text_gtb}
use food_delivery_analytics.Prelude.Int.{pos, ◌+ℤ◌}
use food_delivery_analytics.Mongo.Memory.{memory}
use food_delivery_analytics.Mongo.Memory.Reads.{memory-ReadLaws}
use food_delivery_analytics.Mongo.Driver.{decode_all}
use food_delivery_analytics.Mongo.Rows.{sum_of}
use food_delivery_analytics.Analytics.Types.{
  RestaurantDayResponse, BranchDayResponse, PlatformDayResponse, DateRange,
}
use food_delivery_analytics.Repository.RestaurantDay
use food_delivery_analytics.Repository.BranchDay
use food_delivery_analytics.Repository.PlatformDay
use food_delivery_analytics.Repository.Book.{book}
use food_delivery_analytics.Repository.ProductDay
use food_delivery_analytics.Service.Events.{parse_event_date, upsert_items, handle_order_placed}
use food_delivery_analytics.Service.Queries.{
  quot_ℤ, avg_order, get_restaurant_days, get_branch_days, get_platform_days,
}
use food_delivery_analytics.Service.Reports.{IsReport}
use food_delivery_analytics.Service.DayQueries.Restaurant.{
  get_restaurant_days-IsReport, get_restaurant_days-book,
}
use food_delivery_analytics.Service.DayQueries.Branch.{
  get_branch_days-IsReport, get_branch_days-book,
}
use food_delivery_analytics.Service.DayQueries.Platform.{
  get_platform_days-IsReport, get_platform_days-book,
}
use food_delivery_analytics.Tests.Fixtures.{first_day, second_day}
use food_delivery_analytics.Tests.Events.{ordered}

abbrev both_days : DateRange
both_days = record { from_date = first_day; to_date = second_day }

abbrev one_day : DateRange
one_day = record { from_date = second_day; to_date = second_day }

abbrev pub restaurant_rows : List RestaurantDayResponse
restaurant_rows =
    record {
      date = second_day;
      orders_count = pos 1;
      revenue_minor = pos 1500;
      currency = "EGP";
      avg_order_minor = pos 1500;
    }
    ∷ []

get_restaurant_days-IsReport_example :
    (text_gtb first_day second_day ≡ false)
    × IsReport
        (λ x. x.date)
        (λ x. x.orders_count)
        (λ x. x.revenue_minor)
        (RestaurantDay.range_filter (pos 7) first_day second_day)
        first_day
        second_day
        (ordered.stored "agg_restaurant_day")
        restaurant_rows
unfolding get_restaurant_days RestaurantDay.find_by_restaurant_and_range RestaurantDay.decode_row
    decode_all ◌+ℤ◌ handle_order_placed parse_event_date upsert_items RestaurantDay.upsert
    BranchDay.upsert PlatformDay.upsert ProductDay.upsert avg_order quot_ℤ
get_restaurant_days-IsReport_example =
    get_restaurant_days-IsReport memory memory-ReadLaws (pos 7) both_days ordered restaurant_rows
      refl

get_restaurant_days-book_example :
    (sum_of (λ x. x.orders_count) restaurant_rows
      ≡ ((book memory ordered).restaurant (pos 7) second_day).orders)
    × (sum_of (λ x. x.revenue_minor) restaurant_rows
        ≡ ((book memory ordered).restaurant (pos 7) second_day).revenue)
unfolding get_restaurant_days RestaurantDay.find_by_restaurant_and_range RestaurantDay.decode_row
    decode_all ◌+ℤ◌ handle_order_placed parse_event_date upsert_items RestaurantDay.upsert
    BranchDay.upsert PlatformDay.upsert ProductDay.upsert avg_order quot_ℤ
get_restaurant_days-book_example =
    get_restaurant_days-book memory memory-ReadLaws (pos 7) second_day ordered restaurant_rows refl

abbrev pub branch_rows : List BranchDayResponse
branch_rows =
    record {
      date = second_day;
      orders_count = pos 1;
      revenue_minor = pos 1500;
      currency = "EGP";
      avg_order_minor = pos 1500;
    }
    ∷ []

get_branch_days-IsReport_example :
    (text_gtb first_day second_day ≡ false)
    × IsReport
        (λ x. x.date)
        (λ x. x.orders_count)
        (λ x. x.revenue_minor)
        (BranchDay.range_filter (pos 3) first_day second_day)
        first_day
        second_day
        (ordered.stored "agg_branch_day")
        branch_rows
unfolding get_branch_days BranchDay.find_by_branch_and_range BranchDay.decode_row decode_all ◌+ℤ◌
    handle_order_placed parse_event_date upsert_items RestaurantDay.upsert BranchDay.upsert
    PlatformDay.upsert ProductDay.upsert avg_order quot_ℤ
get_branch_days-IsReport_example =
    get_branch_days-IsReport memory memory-ReadLaws (pos 3) both_days ordered branch_rows refl

get_branch_days-book_example :
    (sum_of (λ x. x.orders_count) branch_rows
      ≡ ((book memory ordered).branch (pos 3) second_day).orders)
    × (sum_of (λ x. x.revenue_minor) branch_rows
        ≡ ((book memory ordered).branch (pos 3) second_day).revenue)
unfolding get_branch_days BranchDay.find_by_branch_and_range BranchDay.decode_row decode_all ◌+ℤ◌
    handle_order_placed parse_event_date upsert_items RestaurantDay.upsert BranchDay.upsert
    PlatformDay.upsert ProductDay.upsert avg_order quot_ℤ
get_branch_days-book_example =
    get_branch_days-book memory memory-ReadLaws (pos 3) second_day ordered branch_rows refl

abbrev platform_rows : List PlatformDayResponse
platform_rows =
    record {
      date = second_day;
      orders_count = pos 1;
      revenue_minor = pos 1500;
      currency = "EGP";
      avg_order_minor = pos 1500;
    }
    ∷ []

get_platform_days-IsReport_example :
    (text_gtb first_day second_day ≡ false)
    × IsReport
        (λ x. x.date)
        (λ x. x.orders_count)
        (λ x. x.revenue_minor)
        (PlatformDay.range_filter first_day second_day)
        first_day
        second_day
        (ordered.stored "agg_platform_day")
        platform_rows
unfolding get_platform_days PlatformDay.find_by_range PlatformDay.decode_row decode_all ◌+ℤ◌
    handle_order_placed parse_event_date upsert_items RestaurantDay.upsert BranchDay.upsert
    PlatformDay.upsert ProductDay.upsert avg_order quot_ℤ
get_platform_days-IsReport_example =
    get_platform_days-IsReport memory memory-ReadLaws both_days ordered platform_rows refl

get_platform_days-book_example :
    (sum_of (λ x. x.orders_count) platform_rows
      ≡ ((book memory ordered).platform second_day).orders)
    × (sum_of (λ x. x.revenue_minor) platform_rows
        ≡ ((book memory ordered).platform second_day).revenue)
unfolding get_platform_days PlatformDay.find_by_range PlatformDay.decode_row decode_all ◌+ℤ◌
    handle_order_placed parse_event_date upsert_items RestaurantDay.upsert BranchDay.upsert
    PlatformDay.upsert ProductDay.upsert avg_order quot_ℤ
get_platform_days-book_example =
    get_platform_days-book memory memory-ReadLaws second_day ordered platform_rows refl

-- ===== src/Dto/Rows.antt =====
-- The rows of app/analytics/dto/days_response.go.
use food_delivery_analytics.Prelude.{String, List, map}
use food_delivery_analytics.Prelude.Int.{ℤ}
use food_delivery_analytics.Analytics.Types.{
  RestaurantDayResponse, BranchDayResponse, PlatformDayResponse, ProductDayResponse,
}

pub record RestaurantDayDto : Type 0 where
  pub date : String
  pub orders_count : ℤ
  pub revenue_minor : ℤ
  pub currency : String
  pub avg_order_minor : ℤ

pub record BranchDayDto : Type 0 where
  pub date : String
  pub orders_count : ℤ
  pub revenue_minor : ℤ
  pub currency : String
  pub avg_order_minor : ℤ

pub record PlatformDayDto : Type 0 where
  pub date : String
  pub orders_count : ℤ
  pub revenue_minor : ℤ
  pub currency : String
  pub avg_order_minor : ℤ

pub record ProductDayDto : Type 0 where
  pub product_id : ℤ
  pub date : String
  pub orders_count : ℤ
  pub quantity_sold : ℤ

abbrev pub to_branch_day_dtos : List BranchDayResponse → List BranchDayDto
to_branch_day_dtos rows =
    map
      (λ row. record {
        date = row.date;
        orders_count = row.orders_count;
        revenue_minor = row.revenue_minor;
        currency = row.currency;
        avg_order_minor = row.avg_order_minor;
      })
      rows

abbrev pub to_restaurant_day_dtos : List RestaurantDayResponse → List RestaurantDayDto
to_restaurant_day_dtos rows =
    map
      (λ row. record {
        date = row.date;
        orders_count = row.orders_count;
        revenue_minor = row.revenue_minor;
        currency = row.currency;
        avg_order_minor = row.avg_order_minor;
      })
      rows

abbrev pub to_product_day_dtos : List ProductDayResponse → List ProductDayDto
to_product_day_dtos rows =
    map
      (λ row. record {
        product_id = row.product_id;
        date = row.date;
        orders_count = row.orders_count;
        quantity_sold = row.quantity_sold;
      })
      rows

abbrev pub to_platform_day_dtos : List PlatformDayResponse → List PlatformDayDto
to_platform_day_dtos rows =
    map
      (λ row. record {
        date = row.date;
        orders_count = row.orders_count;
        revenue_minor = row.revenue_minor;
        currency = row.currency;
        avg_order_minor = row.avg_order_minor;
      })
      rows

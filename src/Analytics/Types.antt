-- ===== src/Analytics/Types.antt =====
-- The event inputs and the response rows of app/analytics/types.go. `time.Time` fields are kept as
-- moments; `int` and `int64` are both integers.
use food_delivery_analytics.Prelude.{String, List}
use food_delivery_analytics.Prelude.Int.{ℤ}

pub record OrderItem : Type 0 where
  pub product_id : ℤ
  pub quantity : ℤ

pub record OnOrderPlacedInput : Type 0 where
  pub order_id : ℤ
  pub restaurant_id : ℤ
  pub branch_id : ℤ
  pub customer_id : ℤ
  pub total_amount : ℤ
  pub items_count : ℤ
  pub currency : String
  pub region : String
  pub placed_at : String
  pub items : List OrderItem

pub record OnOrderDeliveredInput : Type 0 where
  pub order_id : ℤ
  pub restaurant_id : ℤ
  pub branch_id : ℤ
  pub delivery_duration_ms : ℤ
  pub delivered_at : String

pub record OnPaymentSucceededInput : Type 0 where
  pub order_id : ℤ
  pub restaurant_id : ℤ
  pub branch_id : ℤ
  pub amount : ℤ
  pub currency : String
  pub paid_at : String

pub record OnOrderCancelledInput : Type 0 where
  pub order_id : ℤ
  pub restaurant_id : ℤ
  pub branch_id : ℤ
  pub cancelled_at : String

pub record RestaurantDayResponse : Type 0 where
  pub date : String
  pub orders_count : ℤ
  pub revenue_minor : ℤ
  pub currency : String
  pub avg_order_minor : ℤ

pub record BranchDayResponse : Type 0 where
  pub date : String
  pub orders_count : ℤ
  pub revenue_minor : ℤ
  pub currency : String
  pub avg_order_minor : ℤ

pub record PlatformDayResponse : Type 0 where
  pub date : String
  pub orders_count : ℤ
  pub revenue_minor : ℤ
  pub currency : String
  pub avg_order_minor : ℤ

pub record ProductDayResponse : Type 0 where
  pub product_id : ℤ
  pub date : String
  pub orders_count : ℤ
  pub quantity_sold : ℤ

-- `From` and `To`.
pub record DateRange : Type 0 where
  pub from_date : String
  pub to_date : String

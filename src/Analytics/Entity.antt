-- ===== src/Analytics/Entity.antt =====
-- The stored rows of app/analytics/entity.
use food_delivery_analytics.Prelude.{String}
use food_delivery_analytics.Prelude.Int.{ℤ}
use food_delivery_analytics.Mongo.Document.{Time}

pub record RestaurantDay : Type 0 where
  pub restaurant_id : ℤ
  pub date : String
  pub currency : String
  pub orders_count : ℤ
  pub revenue_sum : ℤ
  pub delivery_ms_sum : ℤ
  pub delivery_ms_count : ℤ
  pub updated_at : Time

pub record BranchDay : Type 0 where
  pub branch_id : ℤ
  pub date : String
  pub currency : String
  pub orders_count : ℤ
  pub revenue_sum : ℤ
  pub delivery_ms_sum : ℤ
  pub delivery_ms_count : ℤ
  pub updated_at : Time

pub record PlatformDay : Type 0 where
  pub date : String
  pub currency : String
  pub orders_count : ℤ
  pub revenue_sum : ℤ
  pub delivery_ms_sum : ℤ
  pub delivery_ms_count : ℤ
  pub updated_at : Time

pub record ProductDay : Type 0 where
  pub product_id : ℤ
  pub restaurant_id : ℤ
  pub date : String
  pub orders_count : ℤ
  pub quantity_sold : ℤ
  pub updated_at : Time

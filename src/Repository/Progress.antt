-- ===== src/Repository/Progress.antt =====
-- On a database that is up, every write of the repositories succeeds.
use food_delivery_analytics.Prelude.{String, true, false}
use food_delivery_analytics.Prelude.Int.{ℤ}
use food_delivery_analytics.Mongo.Driver.{Driver}
use food_delivery_analytics.Mongo.Up.{StaysUp, Returns, Returns-timed_update}
use food_delivery_analytics.Analytics.Enums.{
  collection_agg_restaurant_day, collection_agg_branch_day, collection_agg_platform_day,
  collection_agg_product_day,
}
use food_delivery_analytics.Repository.RestaurantDay
use food_delivery_analytics.Repository.BranchDay
use food_delivery_analytics.Repository.PlatformDay
use food_delivery_analytics.Repository.ProductDay

module _ {W : Type 0} (db : Driver W) (Up : W → Type 0) (ups : StaysUp db Up) where
  pub restaurant_upsert-Returns :
      (r : ℤ) (d currency : String) (n : ℤ) → Returns Up (RestaurantDay.upsert db r d currency n)
  unfolding RestaurantDay.upsert
  restaurant_upsert-Returns r d currency n =
      Returns-timed_update db Up ups collection_agg_restaurant_day (RestaurantDay.key_filter r d)
        (RestaurantDay.upsert_update r d currency n) true

  pub restaurant_incr_delivery-Returns :
      (r : ℤ) (d : String) (n : ℤ) → Returns Up (RestaurantDay.incr_delivery db r d n)
  unfolding RestaurantDay.incr_delivery
  restaurant_incr_delivery-Returns r d n =
      Returns-timed_update db Up ups collection_agg_restaurant_day (RestaurantDay.key_filter r d)
        (RestaurantDay.incr_delivery_update n) false

  pub restaurant_incr_revenue-Returns :
      (r : ℤ) (d : String) (n : ℤ) → Returns Up (RestaurantDay.incr_revenue db r d n)
  unfolding RestaurantDay.incr_revenue
  restaurant_incr_revenue-Returns r d n =
      Returns-timed_update db Up ups collection_agg_restaurant_day (RestaurantDay.key_filter r d)
        (RestaurantDay.incr_revenue_update n) false

  pub restaurant_decr_order-Returns :
      (r : ℤ) (d : String) → Returns Up (RestaurantDay.decr_order db r d)
  unfolding RestaurantDay.decr_order
  restaurant_decr_order-Returns r d =
      Returns-timed_update db Up ups collection_agg_restaurant_day (RestaurantDay.key_filter r d)
        RestaurantDay.decr_order_update false

  pub branch_upsert-Returns :
      (b : ℤ) (d currency : String) (n : ℤ) → Returns Up (BranchDay.upsert db b d currency n)
  unfolding BranchDay.upsert
  branch_upsert-Returns b d currency n =
      Returns-timed_update db Up ups collection_agg_branch_day (BranchDay.key_filter b d)
        (BranchDay.upsert_update b d currency n) true

  pub branch_incr_delivery-Returns :
      (b : ℤ) (d : String) (n : ℤ) → Returns Up (BranchDay.incr_delivery db b d n)
  unfolding BranchDay.incr_delivery
  branch_incr_delivery-Returns b d n =
      Returns-timed_update db Up ups collection_agg_branch_day (BranchDay.key_filter b d)
        (BranchDay.incr_delivery_update n) false

  pub branch_incr_revenue-Returns :
      (b : ℤ) (d : String) (n : ℤ) → Returns Up (BranchDay.incr_revenue db b d n)
  unfolding BranchDay.incr_revenue
  branch_incr_revenue-Returns b d n =
      Returns-timed_update db Up ups collection_agg_branch_day (BranchDay.key_filter b d)
        (BranchDay.incr_revenue_update n) false

  pub branch_decr_order-Returns : (b : ℤ) (d : String) → Returns Up (BranchDay.decr_order db b d)
  unfolding BranchDay.decr_order
  branch_decr_order-Returns b d =
      Returns-timed_update db Up ups collection_agg_branch_day (BranchDay.key_filter b d)
        BranchDay.decr_order_update false

  pub platform_upsert-Returns :
      (d currency : String) (n : ℤ) → Returns Up (PlatformDay.upsert db d currency n)
  unfolding PlatformDay.upsert
  platform_upsert-Returns d currency n =
      Returns-timed_update db Up ups collection_agg_platform_day (PlatformDay.key_filter d currency)
        (PlatformDay.upsert_update d currency n) true

  pub platform_incr_revenue-Returns :
      (d : String) (n : ℤ) → Returns Up (PlatformDay.incr_revenue db d n)
  unfolding PlatformDay.incr_revenue
  platform_incr_revenue-Returns d n =
      Returns-timed_update db Up ups collection_agg_platform_day (PlatformDay.date_filter d)
        (PlatformDay.incr_revenue_update n) false

  pub platform_decr_order-Returns : (d : String) → Returns Up (PlatformDay.decr_order db d)
  unfolding PlatformDay.decr_order
  platform_decr_order-Returns d =
      Returns-timed_update db Up ups collection_agg_platform_day (PlatformDay.date_filter d)
        PlatformDay.decr_order_update false

  pub product_upsert-Returns :
      (p r : ℤ) (d : String) (n : ℤ) → Returns Up (ProductDay.upsert db p r d n)
  unfolding ProductDay.upsert
  product_upsert-Returns p r d n =
      Returns-timed_update db Up ups collection_agg_product_day (ProductDay.key_filter p r d)
        (ProductDay.upsert_update p r d n) true

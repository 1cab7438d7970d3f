-- ===== src/Repository/Untouched.antt =====
-- The writes of app/analytics/repository leave alone what the database's calls do.
use food_delivery_analytics.Prelude.{String, true, false}
use food_delivery_analytics.Prelude.Int.{ℤ}
use food_delivery_analytics.Mongo.Driver.{Driver, clock}
use food_delivery_analytics.Mongo.Untouched.{Leaves, Untouched, Leaves-bind, timed}
use food_delivery_analytics.Analytics.Enums.{
  collection_agg_restaurant_day, collection_agg_branch_day, collection_agg_platform_day,
  collection_agg_product_day, collection_event_ids,
}
use food_delivery_analytics.Repository.RestaurantDay
use food_delivery_analytics.Repository.BranchDay
use food_delivery_analytics.Repository.PlatformDay
use food_delivery_analytics.Repository.ProductDay
use food_delivery_analytics.Repository.EventIds

module _ {W L : Type 0} (db : Driver W) (obs : W → L) (alone : Untouched db obs) where
  pub restaurant_upsert-Leaves :
      (id : ℤ) (date currency : String) (revenue : ℤ)
      → Leaves obs (RestaurantDay.upsert db id date currency revenue)
  unfolding RestaurantDay.upsert
  restaurant_upsert-Leaves id date currency revenue =
      timed db obs alone collection_agg_restaurant_day (RestaurantDay.key_filter id date)
        (λ t. RestaurantDay.upsert_update id date currency revenue t) true

  pub restaurant_incr_delivery-Leaves :
      (id : ℤ) (date : String) (ms : ℤ) → Leaves obs (RestaurantDay.incr_delivery db id date ms)
  unfolding RestaurantDay.incr_delivery
  restaurant_incr_delivery-Leaves id date ms =
      timed db obs alone collection_agg_restaurant_day (RestaurantDay.key_filter id date)
        (λ t. RestaurantDay.incr_delivery_update ms t) false

  pub restaurant_incr_revenue-Leaves :
      (id : ℤ) (date : String) (amount : ℤ)
      → Leaves obs (RestaurantDay.incr_revenue db id date amount)
  unfolding RestaurantDay.incr_revenue
  restaurant_incr_revenue-Leaves id date amount =
      timed db obs alone collection_agg_restaurant_day (RestaurantDay.key_filter id date)
        (λ t. RestaurantDay.incr_revenue_update amount t) false

  pub restaurant_decr_order-Leaves :
      (id : ℤ) (date : String) → Leaves obs (RestaurantDay.decr_order db id date)
  unfolding RestaurantDay.decr_order
  restaurant_decr_order-Leaves id date =
      timed db obs alone collection_agg_restaurant_day (RestaurantDay.key_filter id date)
        (λ t. RestaurantDay.decr_order_update t) false

  pub branch_upsert-Leaves :
      (id : ℤ) (date currency : String) (revenue : ℤ)
      → Leaves obs (BranchDay.upsert db id date currency revenue)
  unfolding BranchDay.upsert
  branch_upsert-Leaves id date currency revenue =
      timed db obs alone collection_agg_branch_day (BranchDay.key_filter id date)
        (λ t. BranchDay.upsert_update id date currency revenue t) true

  pub branch_incr_delivery-Leaves :
      (id : ℤ) (date : String) (ms : ℤ) → Leaves obs (BranchDay.incr_delivery db id date ms)
  unfolding BranchDay.incr_delivery
  branch_incr_delivery-Leaves id date ms =
      timed db obs alone collection_agg_branch_day (BranchDay.key_filter id date)
        (λ t. BranchDay.incr_delivery_update ms t) false

  pub branch_incr_revenue-Leaves :
      (id : ℤ) (date : String) (amount : ℤ) → Leaves obs (BranchDay.incr_revenue db id date amount)
  unfolding BranchDay.incr_revenue
  branch_incr_revenue-Leaves id date amount =
      timed db obs alone collection_agg_branch_day (BranchDay.key_filter id date)
        (λ t. BranchDay.incr_revenue_update amount t) false

  pub branch_decr_order-Leaves :
      (id : ℤ) (date : String) → Leaves obs (BranchDay.decr_order db id date)
  unfolding BranchDay.decr_order
  branch_decr_order-Leaves id date =
      timed db obs alone collection_agg_branch_day (BranchDay.key_filter id date)
        (λ t. BranchDay.decr_order_update t) false

  pub platform_upsert-Leaves :
      (date currency : String) (revenue : ℤ)
      → Leaves obs (PlatformDay.upsert db date currency revenue)
  unfolding PlatformDay.upsert
  platform_upsert-Leaves date currency revenue =
      timed db obs alone collection_agg_platform_day (PlatformDay.key_filter date currency)
        (λ t. PlatformDay.upsert_update date currency revenue t) true

  pub platform_incr_revenue-Leaves :
      (date : String) (amount : ℤ) → Leaves obs (PlatformDay.incr_revenue db date amount)
  unfolding PlatformDay.incr_revenue
  platform_incr_revenue-Leaves date amount =
      timed db obs alone collection_agg_platform_day (PlatformDay.date_filter date)
        (λ t. PlatformDay.incr_revenue_update amount t) false

  pub platform_decr_order-Leaves : (date : String) → Leaves obs (PlatformDay.decr_order db date)
  unfolding PlatformDay.decr_order
  platform_decr_order-Leaves date =
      timed db obs alone collection_agg_platform_day (PlatformDay.date_filter date)
        (λ t. PlatformDay.decr_order_update t) false

  pub product_upsert-Leaves :
      (id restaurant : ℤ) (date : String) (quantity : ℤ)
      → Leaves obs (ProductDay.upsert db id restaurant date quantity)
  unfolding ProductDay.upsert
  product_upsert-Leaves id restaurant date quantity =
      timed db obs alone collection_agg_product_day (ProductDay.key_filter id restaurant date)
        (λ t. ProductDay.upsert_update id restaurant date quantity t) true

  pub mark_seen-Leaves : (id : String) → Leaves obs (EventIds.mark_seen db id)
  unfolding EventIds.mark_seen
  mark_seen-Leaves id =
      Leaves-bind obs (clock db)
        (λ t w.
          let (r, w') = db.insert_one collection_event_ids (EventIds.event_document id t) w in
          (EventIds.first_time r, w'))
        alone.nows
        λ t. record {
          at = λ w. (alone.inserts collection_event_ids (EventIds.event_document id t)).at w;
        }

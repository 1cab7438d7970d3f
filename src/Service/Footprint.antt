-- ===== src/Service/Footprint.antt =====
-- The event handlers of analytics_service.go write to the aggregate collections only.
use food_delivery_analytics.Prelude.{String, refl, List, [], ◌∷◌}
use food_delivery_analytics.Prelude.Int.{ℤ}
use food_delivery_analytics.Effect.{ok}
use food_delivery_analytics.Mongo.Driver.{Driver, WriteLaws}
use food_delivery_analytics.Mongo.Keeps.{Keeps, Keeps-lift, Keeps-bind, Keeps-if, Keeps-other}
use food_delivery_analytics.Analytics.Enums.{
  collection_event_ids, collection_agg_restaurant_day, collection_agg_branch_day,
  collection_agg_platform_day, collection_agg_product_day,
}
use food_delivery_analytics.Analytics.Types.{
  OrderItem, OnOrderPlacedInput, OnOrderDeliveredInput, OnPaymentSucceededInput,
  OnOrderCancelledInput,
}
use food_delivery_analytics.Repository.RestaurantDay
use food_delivery_analytics.Repository.BranchDay
use food_delivery_analytics.Repository.PlatformDay
use food_delivery_analytics.Repository.ProductDay
use food_delivery_analytics.Service.Calendar.{Calendar}
use food_delivery_analytics.Service.Refinement.{parse_event_date_day}
use food_delivery_analytics.Service.Events.{
  is_skipped, currency_or_default, parse_event_date, upsert_items, handle_order_placed,
  handle_order_delivered, handle_payment_succeeded, handle_order_cancelled,
}

module _ {W : Type 0} (db : Driver W) (laws : WriteLaws db) (cal : Calendar) where
  abbrev c : String
  c = collection_event_ids

  parse_event_date-Keeps : (raw : String) → Keeps db c (parse_event_date db cal raw)
  parse_event_date-Keeps raw = record {
    at = λ w. (parse_event_date_day db laws cal raw w).1 collection_event_ids;
  }

  upsert_items-Keeps :
      (r : ℤ) (d : String) (items : List OrderItem) → Keeps db c (upsert_items db cal r d items)
  unfolding upsert_items
  upsert_items-Keeps r d [] = Keeps-lift db c (ok tt)
  upsert_items-Keeps r d (item ∷ items) =
      Keeps-if db c (is_skipped item) _ _ (upsert_items-Keeps r d items) (
        Keeps-bind db c _ _
          (Keeps-other db c collection_agg_product_day
            (ProductDay.upsert db item.product_id r d item.quantity)
            (λ w. ProductDay.Effects.upsert_frame db laws w item.product_id r d item.quantity w)
            refl)
          (λ _. upsert_items-Keeps r d items))

  pub handle_order_placed-Keeps :
      (input : OnOrderPlacedInput) → Keeps db c (handle_order_placed db cal input)
  unfolding handle_order_placed
  handle_order_placed-Keeps input =
      let cur = currency_or_default input.currency in
      let n = input.total_amount in
      Keeps-bind db c _ _ (parse_event_date-Keeps input.placed_at) (λ d.
        Keeps-bind db c _ _
          (Keeps-other db c collection_agg_restaurant_day
            (RestaurantDay.upsert db input.restaurant_id d cur n)
            (RestaurantDay.Effects.upsert_frame db laws input.restaurant_id d cur n) refl)
          (λ _.
            Keeps-bind db c _ _
              (Keeps-other db c collection_agg_branch_day
                (BranchDay.upsert db input.branch_id d cur n)
                (BranchDay.Effects.upsert_frame db laws input.branch_id d cur n) refl)
              (λ _.
                Keeps-bind db c _ _
                  (Keeps-other db c collection_agg_platform_day (PlatformDay.upsert db d cur n)
                    (PlatformDay.Effects.upsert_frame db laws d cur n) refl)
                  (λ _. upsert_items-Keeps input.restaurant_id d input.items))))

  pub handle_order_delivered-Keeps :
      (input : OnOrderDeliveredInput) → Keeps db c (handle_order_delivered db cal input)
  unfolding handle_order_delivered
  handle_order_delivered-Keeps input =
      let n = input.delivery_duration_ms in
      Keeps-bind db c _ _ (parse_event_date-Keeps input.delivered_at) (λ d.
        Keeps-bind db c _ _
          (Keeps-other db c collection_agg_restaurant_day
            (RestaurantDay.incr_delivery db input.restaurant_id d n)
            (RestaurantDay.Effects.incr_delivery_frame db laws input.restaurant_id d n) refl)
          (λ _.
            Keeps-other db c collection_agg_branch_day
              (BranchDay.incr_delivery db input.branch_id d n)
              (BranchDay.Effects.incr_delivery_frame db laws input.branch_id d n) refl))

  pub handle_payment_succeeded-Keeps :
      (input : OnPaymentSucceededInput) → Keeps db c (handle_payment_succeeded db cal input)
  unfolding handle_payment_succeeded
  handle_payment_succeeded-Keeps input =
      let n = input.amount in
      Keeps-bind db c _ _ (parse_event_date-Keeps input.paid_at) (λ d.
        Keeps-bind db c _ _
          (Keeps-other db c collection_agg_restaurant_day
            (RestaurantDay.incr_revenue db input.restaurant_id d n)
            (RestaurantDay.Effects.incr_revenue_frame db laws input.restaurant_id d n) refl)
          (λ _.
            Keeps-bind db c _ _
              (Keeps-other db c collection_agg_branch_day
                (BranchDay.incr_revenue db input.branch_id d n)
                (BranchDay.Effects.incr_revenue_frame db laws input.branch_id d n) refl)
              (λ _.
                Keeps-other db c collection_agg_platform_day (PlatformDay.incr_revenue db d n)
                  (PlatformDay.Effects.incr_revenue_frame db laws d n) refl)))

  pub handle_order_cancelled-Keeps :
      (input : OnOrderCancelledInput) → Keeps db c (handle_order_cancelled db cal input)
  unfolding handle_order_cancelled
  handle_order_cancelled-Keeps input =
      Keeps-bind db c _ _ (parse_event_date-Keeps input.cancelled_at) (λ d.
        Keeps-bind db c _ _
          (Keeps-other db c collection_agg_restaurant_day
            (RestaurantDay.decr_order db input.restaurant_id d)
            (RestaurantDay.Effects.decr_order_frame db laws input.restaurant_id d) refl)
          (λ _.
            Keeps-bind db c _ _
              (Keeps-other db c collection_agg_branch_day
                (BranchDay.decr_order db input.branch_id d)
                (BranchDay.Effects.decr_order_frame db laws input.branch_id d) refl)
              (λ _.
                Keeps-other db c collection_agg_platform_day (PlatformDay.decr_order db d)
                  (PlatformDay.Effects.decr_order_frame db laws d) refl)))

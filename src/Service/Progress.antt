-- ===== src/Service/Progress.antt =====
-- On a database that is up, the event handlers of analytics_service.go succeed.
use food_delivery_analytics.Prelude.{
  String, List, [], ◌∷◌, Bool-cases, inl, inr, Option-cases, ◌==◌,
}
use food_delivery_analytics.Prelude.Int.{ℤ}
use food_delivery_analytics.Mongo.Driver.{Driver, clock}
use food_delivery_analytics.Mongo.Up.{
  StaysUp, Returns, Returns-pure, Returns-bind, Returns-if, Returns-clock,
}
use food_delivery_analytics.Analytics.Types.{
  OrderItem, OnOrderPlacedInput, OnOrderDeliveredInput, OnPaymentSucceededInput,
  OnOrderCancelledInput,
}
use food_delivery_analytics.Repository.Progress.{
  restaurant_upsert-Returns, restaurant_incr_delivery-Returns, restaurant_incr_revenue-Returns,
  restaurant_decr_order-Returns, branch_upsert-Returns, branch_incr_delivery-Returns,
  branch_incr_revenue-Returns, branch_decr_order-Returns, platform_upsert-Returns,
  platform_incr_revenue-Returns, platform_decr_order-Returns, product_upsert-Returns,
}
use food_delivery_analytics.Service.Calendar.{Calendar}
use food_delivery_analytics.Service.Events.{
  is_skipped, currency_or_default, today, parse_event_date, upsert_items, handle_order_placed,
  handle_order_delivered, handle_payment_succeeded, handle_order_cancelled,
}

module _ {W : Type 0} (db : Driver W) (Up : W → Type 0) (ups : StaysUp db Up) (cal : Calendar) where
  today-Returns : Returns Up (today db cal)
  today-Returns =
      Returns-bind Up (clock db) _ (Returns-clock db Up ups)
        (λ t. Returns-pure Up (cal.format_date t))

  parse_event_date-Returns : (raw : String) → Returns Up (parse_event_date db cal raw)
  unfolding parse_event_date
  parse_event_date-Returns raw = elim (Bool-cases (raw == "")) [
    | inl none_given ↦ rw none_given today-Returns
    | inr given ↦ elim (Option-cases (cal.parse_rfc3339 raw)) [
      | inl unreadable ↦ rw (given, unreadable) today-Returns
      | inr (t, e) ↦ rw (given, e) (Returns-pure Up (cal.format_date t))
    ]
  ]

  upsert_items-Returns :
      (r : ℤ) (d : String) (items : List OrderItem) → Returns Up (upsert_items db cal r d items)
  unfolding upsert_items
  upsert_items-Returns r d [] = Returns-pure Up tt
  upsert_items-Returns r d (item ∷ items) =
      Returns-if Up (is_skipped item) _ _ (upsert_items-Returns r d items) (
        Returns-bind Up _ _ (product_upsert-Returns db Up ups item.product_id r d item.quantity)
          (λ _. upsert_items-Returns r d items))

  pub handle_order_placed-Returns :
      (input : OnOrderPlacedInput) → Returns Up (handle_order_placed db cal input)
  unfolding handle_order_placed
  handle_order_placed-Returns input =
      let c = currency_or_default input.currency in
      let n = input.total_amount in
      Returns-bind Up _ _ (parse_event_date-Returns input.placed_at) λ d.
        Returns-bind Up _ _ (restaurant_upsert-Returns db Up ups input.restaurant_id d c n) λ _.
          Returns-bind Up _ _ (branch_upsert-Returns db Up ups input.branch_id d c n) λ _.
            Returns-bind Up _ _ (platform_upsert-Returns db Up ups d c n)
              λ _. upsert_items-Returns input.restaurant_id d input.items

  pub handle_order_delivered-Returns :
      (input : OnOrderDeliveredInput) → Returns Up (handle_order_delivered db cal input)
  unfolding handle_order_delivered
  handle_order_delivered-Returns input =
      let n = input.delivery_duration_ms in
      Returns-bind Up _ _ (parse_event_date-Returns input.delivered_at) λ d.
        Returns-bind Up _ _ (restaurant_incr_delivery-Returns db Up ups input.restaurant_id d n)
          λ _. branch_incr_delivery-Returns db Up ups input.branch_id d n

  pub handle_payment_succeeded-Returns :
      (input : OnPaymentSucceededInput) → Returns Up (handle_payment_succeeded db cal input)
  unfolding handle_payment_succeeded
  handle_payment_succeeded-Returns input =
      let n = input.amount in
      Returns-bind Up _ _ (parse_event_date-Returns input.paid_at) λ d.
        Returns-bind Up _ _ (restaurant_incr_revenue-Returns db Up ups input.restaurant_id d n) λ _.
          Returns-bind Up _ _ (branch_incr_revenue-Returns db Up ups input.branch_id d n)
            λ _. platform_incr_revenue-Returns db Up ups d n

  pub handle_order_cancelled-Returns :
      (input : OnOrderCancelledInput) → Returns Up (handle_order_cancelled db cal input)
  unfolding handle_order_cancelled
  handle_order_cancelled-Returns input =
      Returns-bind Up _ _ (parse_event_date-Returns input.cancelled_at) λ d.
        Returns-bind Up _ _ (restaurant_decr_order-Returns db Up ups input.restaurant_id d) λ _.
          Returns-bind Up _ _ (branch_decr_order-Returns db Up ups input.branch_id d)
            λ _. platform_decr_order-Returns db Up ups d

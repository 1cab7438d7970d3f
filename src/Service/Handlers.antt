-- ===== src/Service/Handlers.antt =====
-- Each event handler of analytics_service.go, as one step of the specification.
use food_delivery_analytics.Prelude.{◌≡◌}
use food_delivery_analytics.Effect.{ok}
use food_delivery_analytics.Mongo.Driver.{Driver, WriteLaws}
use food_delivery_analytics.Analytics.Types.{
  OnOrderPlacedInput, OnOrderDeliveredInput, OnPaymentSucceededInput, OnOrderCancelledInput,
}
use food_delivery_analytics.Repository.Book.{book}
use food_delivery_analytics.Service.Calendar.{Calendar}
use food_delivery_analytics.Service.Events.{
  currency_or_default, handle_order_placed, handle_order_delivered, handle_payment_succeeded,
  handle_order_cancelled,
}
use food_delivery_analytics.Service.Ledger.{day_of, placed, delivered, paid, cancelled}
use food_delivery_analytics.Service.Refinement.{Refines-seq, Refines-dated, upsert_items-Refines}
use food_delivery_analytics.Service.Writes.{
  restaurant_upsert, restaurant_incr_delivery, restaurant_incr_revenue, restaurant_decr_order,
  platform_upsert, platform_incr_revenue, platform_decr_order, branch_upsert, branch_incr_delivery,
  branch_incr_revenue, branch_decr_order,
}

module _ {W : Type 0} (db : Driver W) (laws : WriteLaws db) (cal : Calendar) where
  -- A placed order that is handled without an error moves the view by exactly its step: one order
  -- and the amount for its restaurant, branch and platform day, and the valid lines for the
  -- products. The day is the timestamp's, or the clock's where there is none to read.
  pub handle_order_placed_refines :
      (input : OnOrderPlacedInput) (w : W)
      → (handle_order_placed db cal input w).0 ≡ ok tt
      → book db (handle_order_placed db cal input w).1
        ≡ placed (day_of cal input.placed_at (db.now w).0) input (book db w)
  unfolding handle_order_placed
  handle_order_placed_refines input w h =
      let r = input.restaurant_id in
      let b = input.branch_id in
      let n = input.total_amount in
      let c = currency_or_default input.currency in
      Refines-dated db laws cal input.placed_at _ (λ d. placed d input)
        (λ d. Refines-seq db _ _ _ _ (restaurant_upsert db laws r d c n) (
          Refines-seq db _ _ _ _ (branch_upsert db laws b d c n) (
            Refines-seq db _ _ _ _ (platform_upsert db laws d c n)
              (upsert_items-Refines db laws cal r d input.items))))
        w h

  -- A delivery that is handled without an error adds its duration and one delivery to the rows of
  -- its restaurant and branch for the day, where there are such rows, and changes nothing else.
  pub handle_order_delivered_refines :
      (input : OnOrderDeliveredInput) (w : W)
      → (handle_order_delivered db cal input w).0 ≡ ok tt
      → book db (handle_order_delivered db cal input w).1
        ≡ delivered (day_of cal input.delivered_at (db.now w).0) input (book db w)
  unfolding handle_order_delivered
  handle_order_delivered_refines input w h =
      let n = input.delivery_duration_ms in
      Refines-dated db laws cal input.delivered_at _ (λ d. delivered d input)
        (λ d.
          Refines-seq db _ _ _ _ (restaurant_incr_delivery db laws input.restaurant_id d n)
            (branch_incr_delivery db laws input.branch_id d n))
        w h

  -- A payment that is handled without an error adds its amount to the revenue of its restaurant,
  -- its branch and the platform for the day, where there are rows, and changes nothing else.
  pub handle_payment_succeeded_refines :
      (input : OnPaymentSucceededInput) (w : W)
      → (handle_payment_succeeded db cal input w).0 ≡ ok tt
      → book db (handle_payment_succeeded db cal input w).1
        ≡ paid (day_of cal input.paid_at (db.now w).0) input (book db w)
  unfolding handle_payment_succeeded
  handle_payment_succeeded_refines input w h =
      let n = input.amount in
      Refines-dated db laws cal input.paid_at _ (λ d. paid d input)
        (λ d. Refines-seq db _ _ _ _ (restaurant_incr_revenue db laws input.restaurant_id d n) (
          Refines-seq db _ _ _ _ (branch_incr_revenue db laws input.branch_id d n)
            (platform_incr_revenue db laws d n)))
        w h

  -- A cancellation that is handled without an error takes one order, and no revenue, from its
  -- restaurant, its branch and the platform for the day, where there are rows.
  pub handle_order_cancelled_refines :
      (input : OnOrderCancelledInput) (w : W)
      → (handle_order_cancelled db cal input w).0 ≡ ok tt
      → book db (handle_order_cancelled db cal input w).1
        ≡ cancelled (day_of cal input.cancelled_at (db.now w).0) input (book db w)
  unfolding handle_order_cancelled
  handle_order_cancelled_refines input w h =
      Refines-dated db laws cal input.cancelled_at _ (λ d. cancelled d input)
        (λ d. Refines-seq db _ _ _ _ (restaurant_decr_order db laws input.restaurant_id d) (
          Refines-seq db _ _ _ _ (branch_decr_order db laws input.branch_id d)
            (platform_decr_order db laws d)))
        w h

-- ===== src/EventHandlers/Untouched.antt =====
-- What the handling of an event leaves alone, whatever it is, if the database's calls do: the
-- handlers of app/analytics/eventhandlers/handlers.go and all that they call.
use food_delivery_analytics.Prelude.{ℕ, String, Option, none, some, List, [], ◌∷◌, ◌==◌}
use food_delivery_analytics.Prelude.Int.{ℤ}
use food_delivery_analytics.Effect.{Action, Result, ok, pure, lift, ◌>>=◌}
use food_delivery_analytics.Mongo.Driver.{Driver}
use food_delivery_analytics.Mongo.Untouched.{Leaves, Untouched, Leaves-bind, Leaves-lift, Leaves-if}
use food_delivery_analytics.Repository.Untouched.{
  restaurant_upsert-Leaves, restaurant_incr_delivery-Leaves, restaurant_incr_revenue-Leaves,
  restaurant_decr_order-Leaves, branch_upsert-Leaves, branch_incr_delivery-Leaves,
  branch_incr_revenue-Leaves, branch_decr_order-Leaves, platform_upsert-Leaves,
  platform_incr_revenue-Leaves, platform_decr_order-Leaves, product_upsert-Leaves,
}
use food_delivery_analytics.Analytics.Types.{OrderItem}
use food_delivery_analytics.Service.Calendar.{Calendar}
use food_delivery_analytics.Service.Events
use food_delivery_analytics.Service.Events.{is_skipped, parse_event_date, today, upsert_items}
use food_delivery_analytics.CoreEvents.Codec.{Codec}
use food_delivery_analytics.EventHandlers.{
  handle_order_placed, handle_order_delivered, handle_payment_succeeded, handle_order_cancelled,
}

module _ {W L : Type 0} (db : Driver W) (obs : W → L) (alone : Untouched db obs) where
  module _ (cal : Calendar) where
    today-Leaves : Leaves obs (today db cal)
    today-Leaves = Leaves-bind obs _ _ alone.nows λ t. Leaves-lift obs (ok (cal.format_date t))

    parse_event_date-Leaves : (raw : String) → Leaves obs (parse_event_date db cal raw)
    unfolding parse_event_date
    parse_event_date-Leaves raw =
        Leaves-if obs (raw == "") _ _ today-Leaves (split (cal.parse_rfc3339 raw))
      where
        split :
            (o : Option ℕ)
            → let date : Action W String = elim o [
              | none ↦ today db cal
              | some t ↦ pure (cal.format_date t)
            ] in
              Leaves obs date
        split none = today-Leaves
        split (some t) = Leaves-lift obs (ok (cal.format_date t))

    upsert_items-Leaves :
        (r : ℤ) (d : String) (items : List OrderItem) → Leaves obs (upsert_items db cal r d items)
    unfolding upsert_items
    upsert_items-Leaves r d [] = Leaves-lift obs (ok tt)
    upsert_items-Leaves r d (item ∷ items) =
        Leaves-if obs (is_skipped item) _ _ (upsert_items-Leaves r d items) (
          Leaves-bind obs _ _ (product_upsert-Leaves db obs alone item.product_id r d item.quantity)
            λ _. upsert_items-Leaves r d items)

    -- A handler decodes its payload, reads the day, and then writes.
    handled :
        {A : Type 0} (r : Result A) (raw : A → String) (rest : A → String → Action W (Unit {0}))
        → ((input : A) (date : String) → Leaves obs (rest input date))
        → Leaves obs
            (lift {W = W} r >>= λ input. (parse_event_date db cal (raw input) >>= rest input))
    handled r raw rest h =
        Leaves-bind obs _ _ (Leaves-lift obs r)
          λ input. Leaves-bind obs _ _ (parse_event_date-Leaves (raw input)) (h input)

    module _ (codec : Codec) (payload : String) where
      pub placed-Leaves : Leaves obs (handle_order_placed db cal codec payload)
      unfolding Events.handle_order_placed
      placed-Leaves = handled (codec.order_placed payload) _ _ λ input date.
          Leaves-bind obs _ _ (restaurant_upsert-Leaves db obs alone _ date _ _) λ _.
            Leaves-bind obs _ _ (branch_upsert-Leaves db obs alone _ date _ _) λ _.
              Leaves-bind obs _ _ (platform_upsert-Leaves db obs alone date _ _)
                λ _. upsert_items-Leaves input.restaurant_id date input.items

      pub delivered-Leaves : Leaves obs (handle_order_delivered db cal codec payload)
      unfolding Events.handle_order_delivered
      delivered-Leaves = handled (codec.order_delivered payload) _ _ λ input date.
          Leaves-bind obs _ _ (restaurant_incr_delivery-Leaves db obs alone _ date _)
            λ _. branch_incr_delivery-Leaves db obs alone _ date _

      pub paid-Leaves : Leaves obs (handle_payment_succeeded db cal codec payload)
      unfolding Events.handle_payment_succeeded
      paid-Leaves = handled (codec.payment_succeeded payload) _ _ λ input date.
          Leaves-bind obs _ _ (restaurant_incr_revenue-Leaves db obs alone _ date _) λ _.
            Leaves-bind obs _ _ (branch_incr_revenue-Leaves db obs alone _ date _)
              λ _. platform_incr_revenue-Leaves db obs alone date _

      pub cancelled-Leaves : Leaves obs (handle_order_cancelled db cal codec payload)
      unfolding Events.handle_order_cancelled
      cancelled-Leaves = handled (codec.order_cancelled payload) _ _ λ input date.
          Leaves-bind obs _ _ (restaurant_decr_order-Leaves db obs alone _ date) λ _.
            Leaves-bind obs _ _ (branch_decr_order-Leaves db obs alone _ date)
              λ _. platform_decr_order-Leaves db obs alone date

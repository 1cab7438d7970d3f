-- ===== src/Service/Events.antt =====
-- The event handlers of app/analytics/service/analytics_service.go.
use food_delivery_analytics.Prelude.{
  String, Bool, ◌||◌, none, some, List, [], ◌∷◌, ◌==◌, if◌then◌else◌,
}
use food_delivery_analytics.Prelude.Int.{ℤ, pos, leb_ℤ}
use food_delivery_analytics.Effect.{Action, pure, ◌>>=◌, ◌>>◌}
use food_delivery_analytics.Mongo.Driver.{Driver, clock}
use food_delivery_analytics.Analytics.Types.{
  OrderItem, OnOrderPlacedInput, OnOrderDeliveredInput, OnPaymentSucceededInput,
  OnOrderCancelledInput,
}
use food_delivery_analytics.Repository.RestaurantDay
use food_delivery_analytics.Repository.BranchDay
use food_delivery_analytics.Repository.PlatformDay
use food_delivery_analytics.Repository.ProductDay
use food_delivery_analytics.Service.Calendar.{Calendar}

abbrev pub currency_or_default : String → String
currency_or_default currency = if currency == "" then "EGP" else currency

-- The lines of an order that `HandleOrderPlaced` skips.
abbrev pub is_skipped : OrderItem → Bool
is_skipped item = leb_ℤ item.product_id (pos 0) || leb_ℤ item.quantity (pos 0)

module _ {W : Type 0} (db : Driver W) (cal : Calendar) where
  -- `time.Now().UTC().Format("2006-01-02")`
  abbrev pub today : Action W String
  today = do t ← clock db; pure (cal.format_date t)

  unfoldable pub parse_event_date : String → Action W String
  parse_event_date raw =
      if raw == ""
      then today
      else elim (cal.parse_rfc3339 raw) [ none ↦ today | some t ↦ pure (cal.format_date t) ]

  -- the loop of `HandleOrderPlaced`
  unfoldable pub upsert_items : ℤ → String → List OrderItem → Action W (Unit {0})
  upsert_items restaurant_id date [] = pure tt
  upsert_items restaurant_id date (item ∷ items) =
      let rest = upsert_items restaurant_id date items in
      if is_skipped item
      then rest
      else (ProductDay.upsert db item.product_id restaurant_id date item.quantity >> rest)

  unfoldable pub handle_order_placed : OnOrderPlacedInput → Action W (Unit {0})
  handle_order_placed input = do
    date ← parse_event_date input.placed_at
    let currency = currency_or_default input.currency
    RestaurantDay.upsert db input.restaurant_id date currency input.total_amount
    BranchDay.upsert db input.branch_id date currency input.total_amount
    PlatformDay.upsert db date currency input.total_amount
    upsert_items input.restaurant_id date input.items

  unfoldable pub handle_order_delivered : OnOrderDeliveredInput → Action W (Unit {0})
  handle_order_delivered input = do
    date ← parse_event_date input.delivered_at
    RestaurantDay.incr_delivery db input.restaurant_id date input.delivery_duration_ms
    BranchDay.incr_delivery db input.branch_id date input.delivery_duration_ms

  unfoldable pub handle_payment_succeeded : OnPaymentSucceededInput → Action W (Unit {0})
  handle_payment_succeeded input = do
    date ← parse_event_date input.paid_at
    RestaurantDay.incr_revenue db input.restaurant_id date input.amount
    BranchDay.incr_revenue db input.branch_id date input.amount
    PlatformDay.incr_revenue db date input.amount

  unfoldable pub handle_order_cancelled : OnOrderCancelledInput → Action W (Unit {0})
  handle_order_cancelled input = do
    date ← parse_event_date input.cancelled_at
    RestaurantDay.decr_order db input.restaurant_id date
    BranchDay.decr_order db input.branch_id date
    PlatformDay.decr_order db date

-- ===== src/Service/Ledger.antt =====
-- The abstract specification of the event handlers: what each event means for the counters.
use food_delivery_analytics.Prelude.{
  String, Bool, true, false, ◌&&◌, List, [], ◌∷◌, none, some, ◌==◌, if◌then◌else◌,
}
use food_delivery_analytics.Prelude.Int.{ℤ, pos, ◌+ℤ◌, ltb_ℤ, beq_ℤ}
use food_delivery_analytics.Mongo.Document.{Time}
use food_delivery_analytics.Analytics.Types.{
  OrderItem, OnOrderPlacedInput, OnOrderDeliveredInput, OnPaymentSucceededInput,
  OnOrderCancelledInput,
}
use food_delivery_analytics.Repository.DayTotals.{
  placed_change, delivered_change, paid_change, cancelled_change,
}
use food_delivery_analytics.Repository.ProductDay.Effects.{ProductTotals}
use food_delivery_analytics.Repository.Book.{Book, on_key, on_day}
use food_delivery_analytics.Service.Calendar.{Calendar}

-- The day of an event: that of its timestamp, or that of the clock if it has none that can be read.
abbrev pub day_of : Calendar → String → Time → String
day_of cal raw t =
    if raw == ""
    then cal.format_date t
    else elim (cal.parse_rfc3339 raw) [ none ↦ cal.format_date t | some s ↦ cal.format_date s ]

-- A line counts for a product if it names it, by a positive number, with a positive quantity.
abbrev pub counts_for : ℤ → OrderItem → Bool
counts_for p item =
    (ltb_ℤ (pos 0) item.product_id && ltb_ℤ (pos 0) item.quantity) && beq_ℤ item.product_id p

unfoldable pub lines_for : ℤ → List OrderItem → ℤ
lines_for p [] = pos 0
lines_for p (item ∷ items) = (if counts_for p item then pos 1 else pos 0) +ℤ lines_for p items

unfoldable pub quantity_for : ℤ → List OrderItem → ℤ
quantity_for p [] = pos 0
quantity_for p (item ∷ items) =
    (if counts_for p item then item.quantity else pos 0) +ℤ quantity_for p items

abbrev pub add_sales : ℤ → List OrderItem → ProductTotals → ProductTotals
add_sales p items t = record {
  orders = t.orders +ℤ lines_for p items;
  quantity = t.quantity +ℤ quantity_for p items;
}

-- An order's lines, on the counters of the products of its restaurant and day.
abbrev pub on_order :
    ℤ → String → List OrderItem → (ℤ → ℤ → String → ProductTotals) → ℤ → ℤ → String → ProductTotals
on_order r d items totals p' r' d' =
    if beq_ℤ r r' && d == d' then add_sales p' items (totals p' r' d') else totals p' r' d'

-- A placed order counts once, with its amount, for its restaurant, its branch and the platform.
abbrev pub placed : String → OnOrderPlacedInput → Book → Book
placed d input b = record {
  restaurant = on_key input.restaurant_id d true (placed_change input.total_amount) b.restaurant;
  branch = on_key input.branch_id d true (placed_change input.total_amount) b.branch;
  platform = on_day d true (placed_change input.total_amount) b.platform;
  product = on_order input.restaurant_id d input.items b.product;
}

-- A delivery counts for its restaurant and branch, where they have a row for the day.
abbrev pub delivered : String → OnOrderDeliveredInput → Book → Book
delivered d input b = record b {
  restaurant =
      on_key input.restaurant_id d false (delivered_change input.delivery_duration_ms) b.restaurant;
  branch = on_key input.branch_id d false (delivered_change input.delivery_duration_ms) b.branch;
}

-- A payment adds revenue, and a cancellation takes one order away, where there is a row.
abbrev pub paid : String → OnPaymentSucceededInput → Book → Book
paid d input b = record b {
  restaurant = on_key input.restaurant_id d false (paid_change input.amount) b.restaurant;
  branch = on_key input.branch_id d false (paid_change input.amount) b.branch;
  platform = on_day d false (paid_change input.amount) b.platform;
}

abbrev pub cancelled : String → OnOrderCancelledInput → Book → Book
cancelled d input b = record b {
  restaurant = on_key input.restaurant_id d false cancelled_change b.restaurant;
  branch = on_key input.branch_id d false cancelled_change b.branch;
  platform = on_day d false cancelled_change b.platform;
}

-- ===== src/Tests/Events.antt =====
-- The event handlers on the empty database, and on one that holds an order.
use food_delivery_analytics.Prelude.{String, ◌≡◌, refl, true, false, ◌||◌, ◌==◌}
use food_delivery_analytics.Prelude.Int.{pos, ◌+ℤ◌}
use food_delivery_analytics.Effect.{ok}
use food_delivery_analytics.Mongo.Memory.{Memory, memory, blank}
use food_delivery_analytics.Mongo.Memory.Writes.{memory-WriteLaws, memory-UniqueIndex}
use food_delivery_analytics.Mongo.Totals.{total}
use food_delivery_analytics.Repository.RestaurantDay
use food_delivery_analytics.Repository.BranchDay
use food_delivery_analytics.Repository.PlatformDay
use food_delivery_analytics.Repository.ProductDay
use food_delivery_analytics.Repository.EventIds
use food_delivery_analytics.Repository.EventIds.Effects.{seen, mark_seen_first, mark_seen_again}
use food_delivery_analytics.Repository.Book.{book}
use food_delivery_analytics.Service.Events.{
  parse_event_date, upsert_items, handle_order_placed, handle_order_delivered,
  handle_payment_succeeded, handle_order_cancelled,
}
use food_delivery_analytics.Service.Ledger.{day_of, placed, delivered, paid, cancelled}
use food_delivery_analytics.Service.Refinement.{parse_event_date_day}
use food_delivery_analytics.Service.Handlers.{
  handle_order_placed_refines, handle_order_delivered_refines, handle_payment_succeeded_refines,
  handle_order_cancelled_refines,
}
use food_delivery_analytics.Tests.Fixtures.{
  calendar, placed_input, delivered_input, paid_input, cancelled_input, second_day,
}

-- The database after the order.
abbrev pub ordered : Memory
ordered = (handle_order_placed memory calendar placed_input blank).1

handle_order_placed_refines_example :
    book memory (handle_order_placed memory calendar placed_input blank).1
    ≡ placed (day_of calendar placed_input.placed_at 0) placed_input (book memory blank)
unfolding handle_order_placed parse_event_date upsert_items RestaurantDay.upsert BranchDay.upsert
    PlatformDay.upsert ProductDay.upsert
handle_order_placed_refines_example =
    handle_order_placed_refines memory memory-WriteLaws calendar placed_input blank refl

-- One order of 1500 for the restaurant on the second day; the line without a product is skipped.
ordered_restaurant :
    (total
        (RestaurantDay.key_filter (pos 7) second_day)
        "revenue_sum"
        (ordered.stored "agg_restaurant_day")
      ≡ pos 1500)
    × (total
          (ProductDay.key_filter (pos 11) (pos 7) second_day)
          "quantity_sold"
          (ordered.stored "agg_product_day")
        ≡ pos 3)
    × (total
          (ProductDay.key_filter (pos 0) (pos 7) second_day)
          "orders_count"
          (ordered.stored "agg_product_day")
        ≡ pos 0)
unfolding total ◌+ℤ◌ handle_order_placed parse_event_date upsert_items RestaurantDay.upsert
    BranchDay.upsert PlatformDay.upsert ProductDay.upsert
ordered_restaurant = (refl, refl, refl)

handle_order_delivered_refines_example :
    book memory (handle_order_delivered memory calendar delivered_input ordered).1
    ≡ delivered
        (day_of calendar delivered_input.delivered_at ordered.time)
        delivered_input
        (book memory ordered)
unfolding handle_order_placed upsert_items RestaurantDay.upsert BranchDay.upsert PlatformDay.upsert
    ProductDay.upsert handle_order_delivered parse_event_date RestaurantDay.incr_delivery
    BranchDay.incr_delivery
handle_order_delivered_refines_example =
    handle_order_delivered_refines memory memory-WriteLaws calendar delivered_input ordered refl

handle_payment_succeeded_refines_example :
    book memory (handle_payment_succeeded memory calendar paid_input ordered).1
    ≡ paid (day_of calendar paid_input.paid_at ordered.time) paid_input (book memory ordered)
unfolding handle_order_placed upsert_items RestaurantDay.upsert BranchDay.upsert PlatformDay.upsert
    ProductDay.upsert handle_payment_succeeded parse_event_date RestaurantDay.incr_revenue
    BranchDay.incr_revenue PlatformDay.incr_revenue
handle_payment_succeeded_refines_example =
    handle_payment_succeeded_refines memory memory-WriteLaws calendar paid_input ordered refl

handle_order_cancelled_refines_example :
    book memory (handle_order_cancelled memory calendar cancelled_input ordered).1
    ≡ cancelled
        (day_of calendar cancelled_input.cancelled_at ordered.time)
        cancelled_input
        (book memory ordered)
unfolding handle_order_placed upsert_items RestaurantDay.upsert BranchDay.upsert PlatformDay.upsert
    ProductDay.upsert handle_order_cancelled parse_event_date RestaurantDay.decr_order
    BranchDay.decr_order PlatformDay.decr_order
handle_order_cancelled_refines_example =
    handle_order_cancelled_refines memory memory-WriteLaws calendar cancelled_input ordered refl

parse_event_date_day_example :
    ((parse_event_date memory calendar placed_input.placed_at blank).0
      ≡ ok (day_of calendar placed_input.placed_at 0))
    × ((c : String)
        → memory.documents (parse_event_date memory calendar placed_input.placed_at blank).1 c
          ≡ memory.documents blank c)
parse_event_date_day_example =
    parse_event_date_day memory memory-WriteLaws calendar placed_input.placed_at blank

-- The database after the first marking of "e1".
abbrev pub marked_once : Memory
marked_once = (EventIds.mark_seen memory "e1" blank).1

mark_seen_first_example :
    (seen memory blank "e1" ≡ false)
    × ((id' : String)
        → seen memory (EventIds.mark_seen memory "e1" blank).1 id'
          ≡ ("e1" == id' || seen memory blank id'))
unfolding EventIds.mark_seen
mark_seen_first_example = mark_seen_first memory memory-WriteLaws memory-UniqueIndex "e1" blank refl

mark_seen_again_example :
    (seen memory marked_once "e1" ≡ true)
    × ((id' : String)
        → seen memory (EventIds.mark_seen memory "e1" marked_once).1 id'
          ≡ seen memory marked_once id')
unfolding EventIds.mark_seen
mark_seen_again_example =
    mark_seen_again memory memory-WriteLaws memory-UniqueIndex "e1" marked_once refl

-- ===== src/Tests/Deliveries.antt =====
-- Messages from the broker, on the empty database.
use food_delivery_analytics.Prelude.{◌≡◌, refl, true, [], ◌∷◌}
use food_delivery_analytics.Effect.{ok}
use food_delivery_analytics.Mongo.Memory.{memory, blank}
use food_delivery_analytics.Mongo.Memory.Writes.{
  memory-WriteLaws, memory-UniqueIndex, AllUp, memory-StaysUp,
}
use food_delivery_analytics.Repository.RestaurantDay
use food_delivery_analytics.Repository.BranchDay
use food_delivery_analytics.Repository.PlatformDay
use food_delivery_analytics.Repository.ProductDay
use food_delivery_analytics.Repository.EventIds
use food_delivery_analytics.Repository.EventIds.Effects.{seen}
use food_delivery_analytics.Repository.Book.{book}
use food_delivery_analytics.Service.Events.{parse_event_date, upsert_items, handle_order_placed}
use food_delivery_analytics.CoreEvents.Consumer.{dispatch, on_message}
use food_delivery_analytics.Messaging.{message_of, deliver, consume_loop}
use food_delivery_analytics.EventHandlers.Dispatch.{event_consumer, message_step}
use food_delivery_analytics.EventHandlers.Delivery.{on_message_refines, counted_once}
use food_delivery_analytics.CoreEvents.Codec.{Envelope}
use food_delivery_analytics.EventHandlers.Progress.{IsReadable, on_message_total}
use food_delivery_analytics.Tests.Fixtures.{
  placed_input, delivered_input, paid_input, cancelled_input, calendar, codec, channel,
  channel-ChannelKeeps, order_envelope, order_delivery, unreadable_delivery,
}

on_message_refines_example :
    book memory
      (on_message codec
        (event_consumer memory calendar codec)
        (message_of channel order_delivery)
        blank).1
    ≡ message_step calendar codec
        (seen memory blank)
        (λ id. (memory.now (EventIds.mark_seen memory id blank).1).0)
        "order.placed"
        (ok order_envelope)
        (book memory blank)
unfolding on_message dispatch EventIds.mark_seen handle_order_placed parse_event_date upsert_items
    RestaurantDay.upsert BranchDay.upsert PlatformDay.upsert ProductDay.upsert
on_message_refines_example =
    on_message_refines memory memory-WriteLaws memory-UniqueIndex calendar codec
      (message_of channel order_delivery) blank (λ w c. refl) refl

counted_once_example :
    book memory (
      deliver channel (on_message codec (event_consumer memory calendar codec)) order_delivery (
        consume_loop channel
          (on_message codec (event_consumer memory calendar codec))
          (order_delivery ∷ unreadable_delivery ∷ [])
          blank))
    ≡ book memory (
        consume_loop channel
          (on_message codec (event_consumer memory calendar codec))
          (order_delivery ∷ unreadable_delivery ∷ [])
          blank)
unfolding EventIds.mark_seen
counted_once_example =
    counted_once memory memory-WriteLaws memory-UniqueIndex calendar codec channel
      channel-ChannelKeeps order_delivery (unreadable_delivery ∷ []) order_delivery order_envelope
      order_envelope true blank refl refl refl refl refl

-- The payloads of the fixtures can be decoded, whatever their key.
order_payload-IsReadable : IsReadable codec "order.placed" "order"
order_payload-IsReadable = record {
  placed_reads = λ h. (placed_input, refl);
  delivered_reads = λ h. (delivered_input, refl);
  paid_reads = λ h. (paid_input, refl);
  cancelled_reads = λ h. (cancelled_input, refl);
}

order_body-IsReadable :
    (e : Envelope)
    → codec.envelope order_delivery.body ≡ ok e
    → IsReadable codec "order.placed" e.payload
order_body-IsReadable e h =
    let same : order_envelope ≡ e = cc h in rw (← same) order_payload-IsReadable

on_message_total_example :
    ((on_message codec
        (event_consumer memory calendar codec)
        (message_of channel order_delivery)
        blank).0
      ≡ ok tt)
    × (book memory
          (on_message codec
            (event_consumer memory calendar codec)
            (message_of channel order_delivery)
            blank).1
        ≡ message_step calendar codec
            (seen memory blank)
            (λ id. (memory.now (EventIds.mark_seen memory id blank).1).0)
            "order.placed"
            (ok order_envelope)
            (book memory blank))
on_message_total_example =
    on_message_total memory memory-WriteLaws memory-UniqueIndex AllUp memory-StaysUp calendar codec
      (message_of channel order_delivery) blank (λ w c. refl)
      (record { at = λ w up. (tt, refl, up) }) order_body-IsReadable (λ c. refl)

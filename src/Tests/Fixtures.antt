-- ===== src/Tests/Fixtures.antt =====
-- What the runs use: a calendar of two days, a codec for four messages, a broker that settles
-- everything, and one event of each kind.
use food_delivery_analytics.Prelude.{
  String, none, some, [], ◌∷◌, true, ◌==◌, leb, if◌then◌else◌, refl,
}
use food_delivery_analytics.Prelude.Int.{pos}
use food_delivery_analytics.Effect.{ok, err, other_fault, pure}
use food_delivery_analytics.Mongo.Memory.{Memory, memory}
use food_delivery_analytics.Analytics.Types.{
  OnOrderPlacedInput, OnOrderDeliveredInput, OnPaymentSucceededInput, OnOrderCancelledInput,
}
use food_delivery_analytics.Service.Calendar.{Calendar}
use food_delivery_analytics.CoreEvents.Codec.{Envelope, Codec}
use food_delivery_analytics.Messaging.{Channel, Delivery}
use food_delivery_analytics.EventHandlers.Delivery.{ChannelKeeps}

abbrev pub first_day : String
first_day = "2024-05-01"

abbrev pub second_day : String
second_day = "2024-05-02"

-- Moments up to 100 are on the first day.
abbrev pub calendar : Calendar
calendar = record {
  parse_rfc3339 = λ s.
      if s == "2024-05-01T10:00:00Z"
      then some 10
      else if s == "2024-05-02T10:00:00Z"
      then some 110
      else none;
  format_date = λ t. if leb t 100 then first_day else second_day;
  is_date = λ s. if s == first_day then true else s == second_day;
}

abbrev pub placed_input : OnOrderPlacedInput
placed_input = record {
  order_id = pos 1;
  restaurant_id = pos 7;
  branch_id = pos 3;
  customer_id = pos 20;
  total_amount = pos 1500;
  items_count = pos 3;
  currency = "";
  region = "cairo";
  placed_at = "2024-05-02T10:00:00Z";
  items =
      record { product_id = pos 11; quantity = pos 2 }
      ∷ record { product_id = pos 0; quantity = pos 5 }
      ∷ record { product_id = pos 11; quantity = pos 1 }
      ∷ [];
}

abbrev pub delivered_input : OnOrderDeliveredInput
delivered_input = record {
  order_id = pos 1;
  restaurant_id = pos 7;
  branch_id = pos 3;
  delivery_duration_ms = pos 900;
  delivered_at = "2024-05-02T10:00:00Z";
}

abbrev pub paid_input : OnPaymentSucceededInput
paid_input = record {
  order_id = pos 1;
  restaurant_id = pos 7;
  branch_id = pos 3;
  amount = pos 1500;
  currency = "EGP";
  paid_at = "2024-05-02T10:00:00Z";
}

abbrev pub cancelled_input : OnOrderCancelledInput
cancelled_input = record {
  order_id = pos 1;
  restaurant_id = pos 7;
  branch_id = pos 3;
  cancelled_at = "2024-05-02T10:00:00Z";
}

abbrev pub order_envelope : Envelope
order_envelope = record { event_id = "e1"; event_type = "order.placed"; payload = "order" }

-- It reads the bodies and payloads that are named here.
abbrev pub codec : Codec
codec = record {
  envelope = λ s. if s == "first" then ok order_envelope else err (other_fault "json");
  rbac_permissions_changed = λ s. err (other_fault "json");
  order_placed = λ s. if s == "order" then ok placed_input else err (other_fault "json");
  order_delivered = λ s. if s == "order" then ok delivered_input else err (other_fault "json");
  payment_succeeded = λ s. if s == "order" then ok paid_input else err (other_fault "json");
  order_cancelled = λ s. if s == "order" then ok cancelled_input else err (other_fault "json");
}

abbrev pub channel : Channel Memory
channel = record { ack = λ tag multiple. pure tt; nack = λ tag multiple requeue. pure tt }

pub channel-ChannelKeeps : ChannelKeeps memory channel
channel-ChannelKeeps = record {
  acks = λ tag multiple w c. refl;
  nacks = λ tag multiple requeue w c. refl;
}

abbrev pub order_delivery : Delivery
order_delivery = record { tag = 1; routing_key = "order.placed"; body = "first" }

abbrev pub unreadable_delivery : Delivery
unreadable_delivery = record { tag = 2; routing_key = "order.placed"; body = "noise" }

-- ===== src/Tests/Broker.antt =====
-- What is asked of a broker, and the events of the core service that come from one.
use food_delivery_analytics.Prelude.{ℕ, ◌+◌, ◌≡◌, refl, none, some, [], ◌∷◌, ◌==◌, if◌then◌else◌}
use food_delivery_analytics.Prelude.Int.{pos}
use food_delivery_analytics.Effect.{Action, ok, err, other_fault, pure}
use food_delivery_analytics.CoreEvents.Codec.{Codec}
use food_delivery_analytics.Messaging.{Channel, Delivery, consume_loop}
use food_delivery_analytics.Messaging.Broker.{ConsumerOptions, Amqp, consume}
use food_delivery_analytics.Messaging.Broker.Plan.{Agrees, run_all, perform, plan, consume-Agrees}
use food_delivery_analytics.Rbac.Cache.{PermissionCache, get_permissions}
use food_delivery_analytics.Boot.CoreConsumer.{channel_beside_cache, on_core_event}
use food_delivery_analytics.Boot.CoreConsumer.Invalidates.{consume_loop_refreshes}
use food_delivery_analytics.Tests.Permissions.{tick, client}
use food_delivery_analytics.Tests.Fixtures.{codec}

-- A broker that counts the calls.
abbrev counted : Action ℕ (Unit {0})
counted n = (ok tt, n + 1)

abbrev amqp : Amqp ℕ
amqp = record {
  dial = λ url n. (ok 1, n);
  open_channel = λ conn n. (ok 2, n);
  close_channel = λ ch. counted;
  close_connection = λ conn. counted;
  exchange_declare = λ ch args. counted;
  queue_declare = λ ch args. counted;
  queue_bind = λ ch args. counted;
  qos = λ ch n size global. counted;
  consume = λ ch args. counted;
  publish = λ ch args. counted;
}

abbrev order_events : ConsumerOptions
order_events = record {
  exchange = "order-service.events";
  queue = "analytics-service.order-events";
  binding_keys = "order.#" ∷ "payment.#" ∷ [];
  prefetch = pos 10;
  dead_letter_exchange = "analytics-service.order-events.dlx";
  dead_letter_queue = "analytics-service.order-events.dead";
}

consume-Agrees_example :
    Agrees (consume amqp 2 order_events) (run_all (perform amqp 2) (plan order_events))
consume-Agrees_example = consume-Agrees amqp 2 order_events

nine_calls : (run_all (perform amqp 2) (plan order_events) 0).1 ≡ 9
nine_calls = refl

-- A codec for one event, of the role "analyst".
abbrev core_codec : Codec
core_codec = record codec {
  envelope = λ s.
      if s == "changed"
      then ok (record { event_id = "e"; event_type = "rbac"; payload = "analyst" })
      else err (other_fault "json");
  rbac_permissions_changed = λ s. ok (record { role_name = s });
}

abbrev channel : Channel ℕ
channel = record { ack = λ tag multiple. pure tt; nack = λ tag multiple requeue. pure tt }

abbrev changed : Delivery
changed = record { tag = 1; routing_key = "rbac.permissions"; body = "changed" }

abbrev noise : Delivery
noise = record { tag = 2; routing_key = "rbac.permissions"; body = "noise" }

-- The role's permissions were cached as none.
abbrev warm : PermissionCache ℕ
warm = record {
  world = 5;
  cache = λ k. if k == "analyst" then some (record { permissions = []; cached_at = 5 }) else none;
}

abbrev left : PermissionCache ℕ
left =
    consume_loop (channel_beside_cache channel) (on_core_event core_codec)
      (noise ∷ changed ∷ noise ∷ []) warm

consume_loop_refreshes_example :
    (get_permissions tick client 60 "analyst" left).0 ≡ (client "analyst" left.world).0
consume_loop_refreshes_example =
    consume_loop_refreshes channel core_codec tick client 60 (noise ∷ []) (noise ∷ []) changed
      "analyst" warm refl (_, refl, refl)

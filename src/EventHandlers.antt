-- ===== src/EventHandlers.antt =====
-- app/analytics/eventhandlers/handlers.go
pub mod Dispatch
pub mod Pipeline
pub mod Once
pub mod Delivery
pub mod Progress
pub mod Untouched
pub mod Settled
use food_delivery_analytics.Prelude.{String}
use food_delivery_analytics.Effect.{Action, lift, ◌>>=◌}
use food_delivery_analytics.Mongo.Driver.{Driver}
use food_delivery_analytics.CoreEvents.Codec.{Codec}
use food_delivery_analytics.CoreEvents.Consumer.{Consumer, EventHandler, register}
use food_delivery_analytics.Service.Calendar.{Calendar}
use food_delivery_analytics.Service.Events

module _ {W : Type 0} (db : Driver W) (cal : Calendar) (codec : Codec) where
  abbrev pub handle_order_placed : EventHandler W
  handle_order_placed payload = do
    input ← lift (codec.order_placed payload)
    Events.handle_order_placed db cal input

  abbrev pub handle_order_delivered : EventHandler W
  handle_order_delivered payload = do
    input ← lift (codec.order_delivered payload)
    Events.handle_order_delivered db cal input

  abbrev pub handle_payment_succeeded : EventHandler W
  handle_payment_succeeded payload = do
    input ← lift (codec.payment_succeeded payload)
    Events.handle_payment_succeeded db cal input

  abbrev pub handle_order_cancelled : EventHandler W
  handle_order_cancelled payload = do
    input ← lift (codec.order_cancelled payload)
    Events.handle_order_cancelled db cal input

  -- `Register`
  abbrev pub register_all : Consumer W → Consumer W
  register_all consumer =
      register
        (register
          (register (register consumer "order.placed" handle_order_placed) "order.delivered"
            handle_order_delivered)
          "payment.succeeded" handle_payment_succeeded)
        "order.cancelled" handle_order_cancelled

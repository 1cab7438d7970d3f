-- ===== src/Messaging.antt =====
-- pkg/messaging: how the broker hands messages to a handler (amqp.go, `Consume`).
pub mod Broker
use food_delivery_analytics.Prelude.{ℕ, String, Bool, false, List, [], ◌∷◌}
use food_delivery_analytics.Effect.{Action, ok, err}
use food_delivery_analytics.CoreEvents.Consumer.{Message}

-- `amqp.Delivery`, as far as it is used; the tag stands for its acknowledger.
pub record Delivery : Type 0 where
  pub tag : ℕ
  pub routing_key : String
  pub body : String

-- `d.Ack(multiple)` and `d.Nack(multiple, requeue)`.
pub record Channel (W : Type 0) : Type 0 where
  pub ack : ℕ → Bool → Action W (Unit {0})
  pub nack : ℕ → Bool → Bool → Action W (Unit {0})

module _ {W : Type 0} (ch : Channel W) where
  abbrev pub message_of : Delivery → Message W
  message_of d = record {
    routing_key = d.routing_key;
    body = d.body;
    ack = ch.ack d.tag false;
    nack = λ requeue. ch.nack d.tag false requeue;
  }

  -- one round of the loop: what the handler fails on is rejected, and not requeued
  unfoldable pub deliver : (Message W → Action W (Unit {0})) → Delivery → W → W
  deliver handler d w =
      let (r, w') = handler (message_of d) w in
      elim r [ ok _ ↦ w' | err _ ↦ (ch.nack d.tag false false w').1 ]

  -- the deliveries that arrive before the channel closes or the context is done
  unfoldable pub consume_loop : (Message W → Action W (Unit {0})) → List Delivery → W → W
  consume_loop handler [] w = w
  consume_loop handler (d ∷ ds) w = consume_loop handler ds (deliver handler d w)

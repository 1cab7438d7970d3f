-- ===== src/Messaging/Broker.antt =====
-- pkg/messaging/amqp.go: the connection of a broker, and what it declares before it consumes. The
-- calls of the AMQP library are parameters; connections and channels are known by their numbers.
pub mod Plan
use food_delivery_analytics.Prelude.{
  ℕ, String, Bool, true, false, Option, none, some, List, [], ◌∷◌, ◌==◌, if◌then◌else◌,
}
use food_delivery_analytics.Prelude.Int.{ℤ, pos}
use food_delivery_analytics.Effect.{Action, Result, ok, err, pure, ◌>>=◌, ◌>>◌}
use food_delivery_analytics.HttpClient.{wrap_fault}

pub record ConsumerOptions : Type 0 where
  pub exchange : String
  pub queue : String
  pub binding_keys : List String
  pub prefetch : ℤ
  pub dead_letter_exchange : String
  pub dead_letter_queue : String

-- The arguments of `ExchangeDeclare`, `QueueDeclare`, `QueueBind`, `Consume` and
-- `PublishWithContext`.
pub record ExchangeArgs : Type 0 where
  pub name : String
  pub kind : String
  pub durable : Bool
  pub auto_deleted : Bool
  pub internal : Bool
  pub no_wait : Bool

pub record QueueArgs : Type 0 where
  pub name : String
  pub durable : Bool
  pub auto_delete : Bool
  pub exclusive : Bool
  pub no_wait : Bool
  pub table : List (String × String)

pub record BindArgs : Type 0 where
  pub name : String
  pub key : String
  pub exchange : String
  pub no_wait : Bool

pub record ConsumeArgs : Type 0 where
  pub queue : String
  pub consumer : String
  pub auto_ack : Bool
  pub exclusive : Bool
  pub no_local : Bool
  pub no_wait : Bool

pub record PublishArgs : Type 0 where
  pub exchange : String
  pub key : String
  pub mandatory : Bool
  pub immediate : Bool
  pub content_type : String
  pub persistent : Bool
  pub body : String

pub record Amqp (W : Type 0) : Type 0 where
  pub dial : String → Action W ℕ
  pub open_channel : ℕ → Action W ℕ
  pub close_channel : ℕ → Action W (Unit {0})
  pub close_connection : ℕ → Action W (Unit {0})
  pub exchange_declare : ℕ → ExchangeArgs → Action W (Unit {0})
  pub queue_declare : ℕ → QueueArgs → Action W (Unit {0})
  pub queue_bind : ℕ → BindArgs → Action W (Unit {0})
  pub qos : ℕ → ℤ → ℤ → Bool → Action W (Unit {0})
  pub consume : ℕ → ConsumeArgs → Action W (Unit {0})
  pub publish : ℕ → PublishArgs → Action W (Unit {0})

pub record AmqpBroker : Type 0 where
  pub url : String
  pub conn : Option ℕ
  pub ch : Option ℕ

abbrev pub new_amqp_broker : String → AmqpBroker
new_amqp_broker url = record { url = url; conn = none; ch = none }

-- `fmt.Errorf("…: %w", err)` around the error of a call
abbrev pub wrap_result : {A : Type 0} → String → Result A → Result A
wrap_result message (ok a) = ok a
wrap_result message (err e) = err (wrap_fault message e)

abbrev pub wrapped : {W A : Type 0} → String → Action W A → Action W A
wrapped message m w = let (r, w') = m w in (wrap_result message r, w')

abbrev pub topic : String → ExchangeArgs
topic name = record {
  name = name;
  kind = "topic";
  durable = true;
  auto_deleted = false;
  internal = false;
  no_wait = false;
}

abbrev pub durable_queue : String → List (String × String) → QueueArgs
durable_queue name table = record {
  name = name;
  durable = true;
  auto_delete = false;
  exclusive = false;
  no_wait = false;
  table = table;
}

abbrev pub binding : String → String → String → BindArgs
binding name key exchange = record { name = name; key = key; exchange = exchange; no_wait = false }

-- `args`: where the queue sends what is rejected
abbrev pub queue_table : ConsumerOptions → List (String × String)
queue_table opts =
    if opts.dead_letter_exchange == ""
    then []
    else ("x-dead-letter-exchange", opts.dead_letter_exchange) ∷ []

module _ {W : Type 0} (amqp : Amqp W) where
  abbrev pub keep_channel : AmqpBroker → Result ℕ × W → (Result (Unit {0}) × AmqpBroker) × W
  keep_channel b (err e, w) = ((err (wrap_fault "amqp channel: " e), b), w)
  keep_channel b (ok ch, w) = ((ok tt, record b { ch = some ch }), w)

  abbrev pub keep_connection : AmqpBroker → Result ℕ × W → (Result (Unit {0}) × AmqpBroker) × W
  keep_connection b (err e, w) = ((err (wrap_fault "amqp dial: " e), b), w)
  keep_connection b (ok conn, w) =
      keep_channel (record b { conn = some conn }) (amqp.open_channel conn w)

  -- A method of a broker that is changed: the result, the broker and the world.
  unfoldable pub connect : AmqpBroker → W → (Result (Unit {0}) × AmqpBroker) × W
  connect b w = keep_connection b (amqp.dial b.url w)

  abbrev pub close_channel_of : Option ℕ → W → W
  close_channel_of none w = w
  close_channel_of (some ch) w = (amqp.close_channel ch w).1

  abbrev pub close_connection_of : Option ℕ → Action W (Unit {0})
  close_connection_of none w = (ok tt, w)
  close_connection_of (some conn) w = amqp.close_connection conn w

  unfoldable pub close : AmqpBroker → Action W (Unit {0})
  close b w = close_connection_of b.conn (close_channel_of b.ch w)

  unfoldable pub publish : ℕ → String → String → String → Action W (Unit {0})
  publish ch exchange routing_key body = amqp.publish ch (record {
    exchange = exchange;
    key = routing_key;
    mandatory = false;
    immediate = false;
    content_type = "application/json";
    persistent = true;
    body = body;
  })

  abbrev pub declare_dead_letters : ℕ → ConsumerOptions → Action W (Unit {0})
  declare_dead_letters ch opts = do
    amqp.exchange_declare ch (topic opts.dead_letter_exchange)
    amqp.queue_declare ch (durable_queue opts.dead_letter_queue [])
    amqp.queue_bind ch (binding opts.dead_letter_queue "#" opts.dead_letter_exchange)

  abbrev pub bind_keys : ℕ → ConsumerOptions → List String → Action W (Unit {0})
  bind_keys ch opts [] = pure tt
  bind_keys ch opts (key ∷ keys) =
      amqp.queue_bind ch (binding opts.queue key opts.exchange) >> bind_keys ch opts keys

  unfoldable pub assert_topology : ℕ → ConsumerOptions → Action W (Unit {0})
  assert_topology ch opts = do
    amqp.exchange_declare ch (topic opts.exchange)
    if opts.dead_letter_exchange == "" then pure tt else declare_dead_letters ch opts
    amqp.queue_declare ch (durable_queue opts.queue (queue_table opts))
    bind_keys ch opts opts.binding_keys

  -- `Consume` up to the start of its loop, which is `consume_loop`.
  unfoldable pub consume : ℕ → ConsumerOptions → Action W (Unit {0})
  consume ch opts = do
    wrapped "assert topology: " (assert_topology ch opts)
    wrapped "qos: " (amqp.qos ch opts.prefetch (pos 0) false)
    wrapped "consume: " (
        amqp.consume ch (record {
          queue = opts.queue;
          consumer = "";
          auto_ack = false;
          exclusive = false;
          no_local = false;
          no_wait = false;
        }))

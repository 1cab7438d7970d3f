-- ===== src/Boot.antt =====
-- lib/boot/boot.go: `Run`, with its deferred calls. The signals and the HTTP server are parameters;
-- so are the handlers that the two consumers run, which are `on_message` and `on_core_event`.
pub mod CoreConsumer
pub mod Closing
pub mod Runs
use food_delivery_analytics.Prelude.{ℕ, String, Option, none, some, List, [], ◌∷◌}
use food_delivery_analytics.Prelude.Int.{ℤ, pos}
use food_delivery_analytics.Effect.{Action, Result, ok, err, fail, other_fault, ◌>>=◌, ◌>>◌}
use food_delivery_analytics.Http.{Response, send_success}
use food_delivery_analytics.HttpClient.{wrap_fault}
use food_delivery_analytics.Config.{Config, Environment, load}
use food_delivery_analytics.Mongo.Connection.{MongoLib, MongoClient, connect, disconnect}
use food_delivery_analytics.Repository.Indexes.{IndexModel, ensure_indexes}
use food_delivery_analytics.Messaging.Broker.{
  ConsumerOptions, Amqp, AmqpBroker, new_amqp_broker, wrapped, consume, close,
}
use food_delivery_analytics.Messaging.Broker

abbrev pub consumer_opts : Config → ConsumerOptions
consumer_opts cfg = record {
  exchange = cfg.rabbit_mq_exchange;
  queue = cfg.rabbit_mq_queue;
  binding_keys = "order.#" ∷ "payment.#" ∷ [];
  prefetch = cfg.rabbit_mq_prefetch;
  dead_letter_exchange = cfg.rabbit_mq_dlx;
  dead_letter_queue = cfg.rabbit_mq_dlq;
}

abbrev pub core_consumer_opts : Config → ConsumerOptions
core_consumer_opts cfg = record {
  exchange = cfg.core_events_exchange;
  queue = cfg.core_events_queue;
  binding_keys = "rbac.#" ∷ [];
  prefetch = pos 1;
  dead_letter_exchange = "";
  dead_letter_queue = "";
}

-- `signal.NotifyContext` and its `stop`; starting to listen at a host and a port, in the
-- background; waiting for a signal; and shutting down within ten seconds.
pub record Process (W : Type 0) : Type 0 where
  pub notify : W → W
  pub stop : W → W
  pub listen : String → ℤ → W → W
  pub wait : W → W
  pub shutdown : Action W (Unit {0})

-- the answer of `/health`
abbrev pub health : Response (List (String × String))
health = send_success 200 (("status", "ok") ∷ [])

-- `defer`: what is done when the function returns, in any way.
abbrev pub deferred : {W A : Type 0} → (W → W) → Action W A → Action W A
deferred later m w = let (r, w') = m w in (r, later w')

module _ {W : Type 0} (os : Environment W) (process : Process W) (mongo : MongoLib W)
    (create_many : MongoClient → String → List IndexModel → Action W (Unit {0}))
    (amqp : Amqp W) where
  -- A broker without a channel would be a nil pointer; `connect` leaves none.
  abbrev pub on_channel : (ℕ → Action W (Unit {0})) → Option ℕ → Action W (Unit {0})
  on_channel body none = fail (other_fault "nil pointer dereference")
  on_channel body (some ch) = body ch

  -- `if err := broker.Connect(ctx); err != nil { … }`, `defer broker.Close()`, and the rest
  abbrev pub run_connected :
      String
      → (ℕ → Action W (Unit {0}))
      → (Result (Unit {0}) × AmqpBroker) × W
      → Result (Unit {0}) × W
  run_connected message body ((err e, b), w) = (err (wrap_fault message e), w)
  run_connected message body ((ok _, b), w) =
      deferred (λ v. (close amqp b v).1) (on_channel body b.ch) w

  unfoldable pub with_broker : String → String → (ℕ → Action W (Unit {0})) → Action W (Unit {0})
  with_broker message url body w =
      run_connected message body (Broker.connect amqp (new_amqp_broker url) w)

  abbrev pub serve_until_done : Config → Action W (Unit {0})
  serve_until_done cfg w = process.shutdown (process.wait (process.listen cfg.host cfg.port w))

  unfoldable pub run_core_consumer : Config → ℕ → Action W (Unit {0})
  run_core_consumer cfg ch = do
    wrapped "start core-events consumer: " (consume amqp ch (core_consumer_opts cfg))
    serve_until_done cfg

  unfoldable pub run_consumer : Config → ℕ → Action W (Unit {0})
  run_consumer cfg ch = do
    wrapped "start consumer: " (consume amqp ch (consumer_opts cfg))
    with_broker "core-service rabbit connect: " cfg.rabbit_mq_url (run_core_consumer cfg)

  unfoldable pub run_database : Config → MongoClient → Action W (Unit {0})
  run_database cfg client = do
    wrapped "ensure indexes: " (ensure_indexes (create_many client))
    with_broker "rabbit connect: " cfg.rabbit_mq_url (run_consumer cfg)

  unfoldable pub run_configured : Config → Action W (Unit {0})
  run_configured cfg = do
    client ← wrapped "mongo connect: " (connect mongo cfg.mongo_uri cfg.mongo_database)
    deferred (λ w. (disconnect mongo client w).1) (run_database cfg client)

  unfoldable pub run : Action W (Unit {0})
  run = do
    cfg ← wrapped "load config: " (load os)
    λ w. deferred process.stop (run_configured cfg) (process.notify w)

-- ===== src/Tests/Start.antt =====
-- A run of the service that fails when it declares its first exchange.
use food_delivery_analytics.Prelude.{ℕ, refl, String, List, ◌∷◌}
use food_delivery_analytics.Prelude.Int.{pos}
use food_delivery_analytics.Effect.{Action, ok, other_fault, pure, fail}
use food_delivery_analytics.Config.{Config, Environment}
use food_delivery_analytics.Mongo.Connection.{MongoLib, MongoClient}
use food_delivery_analytics.Repository.Indexes.{IndexModel}
use food_delivery_analytics.Messaging.Broker.{Amqp}
use food_delivery_analytics.Boot.{Process, run}
use food_delivery_analytics.Boot.Closing.{Handle, database, broker, remove, Closes}
use food_delivery_analytics.Boot.Runs.{Counts, Answers, run-Closes}

abbrev config : Config
config = record {
  app_stage = "dev";
  port = pos 3002;
  host = "localhost";
  mongo_uri = "mongodb://localhost:27017";
  mongo_database = "analytics_service";
  rabbit_mq_url = "amqp://localhost:5672";
  rabbit_mq_exchange = "order-service.events";
  rabbit_mq_queue = "orders";
  rabbit_mq_dlx = "orders.dlx";
  rabbit_mq_dlq = "orders.dead";
  rabbit_mq_prefetch = pos 10;
  core_events_exchange = "core-service.events";
  core_events_queue = "core";
  access_secret = "key";
  core_service_url = "http://localhost:3000";
  core_service_api_key = "key";
  rbac_cache_ttl_sec = pos 300;
  event_dedup_ttl_days = pos 7;
}

-- The world is the connections that are open.
abbrev os : Environment (List Handle)
os = record {
  getenv = λ k n. "";
  getwd = λ n. "/srv";
  join = λ a b. b;
  load_file = λ path n. n;
  parse = λ tags. pure config;
}

abbrev process : Process (List Handle)
process = record {
  notify = λ n. n;
  stop = λ n. n;
  listen = λ host port n. n;
  wait = λ n. n;
  shutdown = pure tt;
}

abbrev opened_as : (ℕ → Handle) → Action (List Handle) ℕ
opened_as handle_of hs = (ok 1, handle_of 1 ∷ hs)

abbrev shut : Handle → Action (List Handle) (Unit {0})
shut h hs = (ok tt, remove h hs)

abbrev mongo : MongoLib (List Handle)
mongo = record {
  connect = λ uri. opened_as database;
  ping = λ c. pure tt;
  disconnect = λ c. shut (database c);
}

abbrev create_many : MongoClient → String → List IndexModel → Action (List Handle) (Unit {0})
create_many client c models = pure tt

abbrev amqp : Amqp (List Handle)
amqp = record {
  dial = λ url. opened_as broker;
  open_channel = λ conn. pure 2;
  close_channel = λ ch. pure tt;
  close_connection = λ conn. shut (broker conn);
  exchange_declare = λ ch args. fail (other_fault "access refused");
  queue_declare = λ ch args. pure tt;
  queue_bind = λ ch args. pure tt;
  qos = λ ch n size global. pure tt;
  consume = λ ch args. pure tt;
  publish = λ ch args. pure tt;
}

abbrev opened : List Handle → List Handle
opened hs = hs

counts : Counts os process mongo create_many amqp opened
counts = record {
  dials = λ url w. refl;
  close_connections = λ conn w. refl;
  connects = λ uri w. refl;
  disconnects = λ c w. refl;
  open_channels = λ conn. record { at = λ w. refl };
  close_channels = λ ch. record { at = λ w. refl };
  exchanges = λ ch args. record { at = λ w. refl };
  queues = λ ch args. record { at = λ w. refl };
  binds = λ ch args. record { at = λ w. refl };
  limits = λ ch n size. record { at = λ w. refl };
  consumes = λ ch args. record { at = λ w. refl };
  pings = λ c. record { at = λ w. refl };
  creates = λ client c models. record { at = λ w. refl };
  parses = λ tags. record { at = λ w. refl };
  loads = λ path w. refl;
  notifies = λ w. refl;
  stops = λ w. refl;
  listens = λ host port w. refl;
  waits = λ w. refl;
  shutdowns = record { at = λ w. refl };
}

answers : Answers os process mongo create_many amqp opened
answers = record { ping_ok = λ c w. refl; channel_ok = λ conn w. (2, refl) }

run-Closes_example : Closes opened (run os process mongo create_many amqp)
run-Closes_example = run-Closes os process mongo create_many amqp opened counts answers

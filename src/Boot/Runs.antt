-- ===== src/Boot/Runs.antt =====
-- `Run` of lib/boot/boot.go closes what it has opened.
use food_delivery_analytics.Prelude.{
  ℕ, ap, false, String, ◌≡◌, ◌∙◌, none, some, List, [], ◌∷◌, ◌==◌,
}
use food_delivery_analytics.Prelude.Int.{ℤ}
use food_delivery_analytics.Effect.{Action, Result, ok, err, pure, continue, ◌>>◌}
use food_delivery_analytics.Config.{Config, Environment, load, Tag}
use food_delivery_analytics.Mongo.Connection.{MongoLib, MongoClient, connect}
use food_delivery_analytics.Repository.Indexes.{IndexModel, ensure_indexes}
use food_delivery_analytics.Messaging.Broker.{
  ConsumerOptions, ExchangeArgs, QueueArgs, BindArgs, ConsumeArgs, Amqp, AmqpBroker,
  new_amqp_broker, wrapped, keep_channel, keep_connection, consume, close, assert_topology,
  bind_keys, declare_dead_letters, topic, durable_queue, queue_table,
}
use food_delivery_analytics.Messaging.Broker
use food_delivery_analytics.Boot.{
  Process, run_connected, with_broker, serve_until_done, run_core_consumer, run_consumer,
  run_database, run_configured, run,
}
use food_delivery_analytics.Boot.Closing.{
  Handle, database, broker, remove, shut_last, Closes, OpensOne, Opens, Shuts, Closes-bind,
  Closes-if, Closes-pure, Closes-wrapped, Opens-wrapped, Closes-bracket,
}

abbrev database_of : MongoClient → Handle
database_of client = database client.inner

module _ {W : Type 0} (os : Environment W) (process : Process W) (mongo : MongoLib W)
    (create_many : MongoClient → String → List IndexModel → Action W (Unit {0})) (amqp : Amqp W)
    (opened : W → List Handle) where
  -- Which calls open and close connections: `Dial` and `Connect` open the one that they answer, the
  -- closing calls close the one that they are given, and no other call does either.
  pub record Counts : Type 0 where
    pub dials : (url : String) → Opens opened broker (amqp.dial url)
    pub close_connections :
        (conn : ℕ) → Shuts opened (broker conn) (λ w. (amqp.close_connection conn w).1)
    pub connects : (uri : String) → Opens opened database (mongo.connect uri)
    pub disconnects : (c : ℕ) → Shuts opened (database c) (λ w. (mongo.disconnect c w).1)
    pub open_channels : (conn : ℕ) → Closes opened (amqp.open_channel conn)
    pub close_channels : (ch : ℕ) → Closes opened (amqp.close_channel ch)
    pub exchanges : (ch : ℕ) (args : ExchangeArgs) → Closes opened (amqp.exchange_declare ch args)
    pub queues : (ch : ℕ) (args : QueueArgs) → Closes opened (amqp.queue_declare ch args)
    pub binds : (ch : ℕ) (args : BindArgs) → Closes opened (amqp.queue_bind ch args)
    pub limits : (ch : ℕ) (n size : ℤ) → Closes opened (amqp.qos ch n size false)
    pub consumes : (ch : ℕ) (args : ConsumeArgs) → Closes opened (amqp.consume ch args)
    pub pings : (c : ℕ) → Closes opened (mongo.ping c)
    pub creates :
        (client : MongoClient) (c : String) (models : List IndexModel)
        → Closes opened (create_many client c models)
    pub parses : (tags : List Tag) → Closes opened (os.parse tags)
    pub loads : (path : String) (w : W) → opened (os.load_file path w) ≡ opened w
    pub notifies : (w : W) → opened (process.notify w) ≡ opened w
    pub stops : (w : W) → opened (process.stop w) ≡ opened w
    pub listens :
        (host : String) (port : ℤ) (w : W) → opened (process.listen host port w) ≡ opened w
    pub waits : (w : W) → opened (process.wait w) ≡ opened w
    pub shutdowns : Closes opened process.shutdown

  -- What is connected answers: a ping of the database, and the opening of a channel.
  pub record Answers : Type 0 where
    pub ping_ok : (c : ℕ) (w : W) → (mongo.ping c w).0 ≡ ok tt
    pub channel_ok : (conn : ℕ) (w : W) → (ch : ℕ) × ((amqp.open_channel conn w).0 ≡ ok ch)

  module _ (counts : Counts) where
    load-Closes : Closes opened (load os)
    unfolding load
    load-Closes = record { at = λ w. (counts.parses _).at _ ∙ counts.loads _ w }

    bind_keys-Closes :
        (ch : ℕ) (opts : ConsumerOptions) (keys : List String)
        → Closes opened (bind_keys amqp ch opts keys)
    bind_keys-Closes ch opts [] = Closes-pure opened tt
    bind_keys-Closes ch opts (key ∷ keys) =
        Closes-bind opened _ _ (counts.binds ch _) λ _. bind_keys-Closes ch opts keys

    assert_topology-Closes :
        (ch : ℕ) (opts : ConsumerOptions) → Closes opened (assert_topology amqp ch opts)
    unfolding assert_topology
    assert_topology-Closes ch opts = Closes-bind opened _ _ (counts.exchanges ch _) λ _.
        Closes-bind opened _ _
          (Closes-if opened (opts.dead_letter_exchange == "") _ _ (Closes-pure opened tt) (
            Closes-bind opened _ _ (counts.exchanges ch _)
              λ _. Closes-bind opened _ _ (counts.queues ch _) λ _. counts.binds ch _))
          λ _.
            Closes-bind opened _ _ (counts.queues ch _)
              λ _. bind_keys-Closes ch opts opts.binding_keys

    consume-Closes : (ch : ℕ) (opts : ConsumerOptions) → Closes opened (consume amqp ch opts)
    unfolding consume
    consume-Closes ch opts =
        Closes-bind opened _ _ (Closes-wrapped opened _ _ (assert_topology-Closes ch opts)) λ _.
          Closes-bind opened _ _ (Closes-wrapped opened _ _ (counts.limits ch _ _))
            λ _. Closes-wrapped opened _ _ (counts.consumes ch _)

    ensure_indexes-Closes :
        (client : MongoClient) → Closes opened (ensure_indexes (create_many client))
    unfolding ensure_indexes
    ensure_indexes-Closes client = Closes-bind opened _ _ (counts.creates client _ _) λ _.
        Closes-bind opened _ _ (counts.creates client _ _) λ _.
          Closes-bind opened _ _ (counts.creates client _ _)
            λ _. Closes-bind opened _ _ (counts.creates client _ _) λ _. counts.creates client _ _

    serve_until_done-Closes :
        (cfg : Config) → Closes opened (serve_until_done os process mongo create_many amqp cfg)
    serve_until_done-Closes cfg = record {
      at = λ w. counts.shutdowns.at _ ∙ counts.waits _ ∙ counts.listens cfg.host cfg.port w;
    }

    module _ (answers : Answers) where
      connect-Opens : (uri name : String) → Opens opened database_of (connect mongo uri name)
      unfolding connect
      connect-Opens uri name w =
          split (mongo.connect uri w).0 (mongo.connect uri w).1 (counts.connects uri w)
        where
          split :
              (r : Result ℕ) (v : W)
              → OpensOne opened database (r, v) (opened w)
              → OpensOne opened database_of
                  (continue r (λ (c : ℕ). mongo.ping c >> pure (record { inner = c; db = name })) v)
                  (opened w)
          split (ok c) v opens = rw (answers.ping_ok c v) ((counts.pings c).at v ∙ opens)
          split (err e) v opens = opens

      close-Shuts :
          (url : String) (conn ch : ℕ)
          → Shuts opened
              (broker conn)
              (λ w. (close amqp (record { url = url; conn = some conn; ch = some ch }) w).1)
      unfolding close
      close-Shuts url conn ch w =
          counts.close_connections conn (amqp.close_channel ch w).1
          ∙ ap (remove (broker conn)) ((counts.close_channels ch).at w)

      keep_channel_balance :
          (message url : String) (body : ℕ → Action W (Unit {0})) (conn : ℕ) (hs : List Handle)
          (v : W)
          → ((ch : ℕ) → Closes opened (body ch))
          → opened v ≡ broker conn ∷ hs
          → opened
              (run_connected os process mongo create_many amqp message body (
                keep_channel amqp
                  (record { url = url; conn = some conn; ch = none })
                  (amqp.open_channel conn v))).1
            ≡ hs
      keep_channel_balance message url body conn hs v closes opens =
          let (ch, channel) = answers.channel_ok conn v in
          let v' = (amqp.open_channel conn v).1 in
          rw (channel, keep_channel)
            (shut_last opened (broker conn) hs _ (body ch v').1 (close-Shuts url conn ch)
              ((closes ch).at v' ∙ (counts.open_channels conn).at v ∙ opens))

      with_broker-Closes :
          (message url : String) (body : ℕ → Action W (Unit {0}))
          → ((ch : ℕ) → Closes opened (body ch))
          → Closes opened (with_broker os process mongo create_many amqp message url body)
      unfolding with_broker Broker.connect
      with_broker-Closes message url body closes = record {
        at = λ w. split w (amqp.dial url w).0 (amqp.dial url w).1 (counts.dials url w);
      }
        where
          split :
              (w : W) (r : Result ℕ) (v : W)
              → OpensOne opened broker (r, v) (opened w)
              → opened
                  (run_connected os process mongo create_many amqp message body
                    (keep_connection amqp (new_amqp_broker url) (r, v))).1
                ≡ opened w
          split w (ok conn) v opens =
              keep_channel_balance message url body conn (opened w) v closes opens
          split w (err e) v opens = opens

      run_core_consumer-Closes :
          (cfg : Config) (ch : ℕ)
          → Closes opened (run_core_consumer os process mongo create_many amqp cfg ch)
      unfolding run_core_consumer
      run_core_consumer-Closes cfg ch =
          Closes-bind opened _ _ (Closes-wrapped opened _ _ (consume-Closes ch _))
            λ _. serve_until_done-Closes cfg

      run_consumer-Closes :
          (cfg : Config) (ch : ℕ)
          → Closes opened (run_consumer os process mongo create_many amqp cfg ch)
      unfolding run_consumer
      run_consumer-Closes cfg ch =
          Closes-bind opened _ _ (Closes-wrapped opened _ _ (consume-Closes ch _))
            λ _. with_broker-Closes _ _ _ (run_core_consumer-Closes cfg)

      run_database-Closes :
          (cfg : Config) (client : MongoClient)
          → Closes opened (run_database os process mongo create_many amqp cfg client)
      unfolding run_database
      run_database-Closes cfg client =
          Closes-bind opened _ _ (Closes-wrapped opened _ _ (ensure_indexes-Closes client))
            λ _. with_broker-Closes _ _ _ (run_consumer-Closes cfg)

      run_configured-Closes :
          (cfg : Config) → Closes opened (run_configured os process mongo create_many amqp cfg)
      unfolding run_configured
      run_configured-Closes cfg =
          Closes-bracket opened database_of _ _ _
            (Opens-wrapped opened _ database_of _ (connect-Opens cfg.mongo_uri cfg.mongo_database))
            (λ client. counts.disconnects client.inner) (run_database-Closes cfg)

      -- However a run ends, and whatever fails in it, the same connections to databases and brokers
      -- are open after it as were before it: each one that it opened is closed, and no other. This is
      -- if the opening and closing calls open and close the connection that they name and the other
      -- calls none, a database that is connected answers its ping, and a broker that is connected
      -- opens its channel.
      pub run-Closes : Closes opened (run os process mongo create_many amqp)
      unfolding run
      run-Closes = Closes-bind opened _ _ (Closes-wrapped opened _ _ load-Closes) λ cfg. record {
        at = λ w.
            counts.stops _ ∙ (run_configured-Closes cfg).at (process.notify w) ∙ counts.notifies w;
      }

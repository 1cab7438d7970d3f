-- ===== src/Messaging/Broker/Plan.antt =====
-- `Consume` of pkg/messaging/amqp.go against the list of calls that it is meant to make.
use mathlib.Core.Path.{subst}
use food_delivery_analytics.Prelude.{
  ℕ, String, ◌≡◌, refl, sym, ◌∙◌, ap, fun_ext, inl, inr, Bool, true, false, List, [], ◌∷◌, ◌++◌,
  map, ◌==◌, Bool-cases, if◌then◌else◌,
}
use food_delivery_analytics.Prelude.Int.{ℤ, pos}
use food_delivery_analytics.Effect.{Action, Result, ok, err, pure, continue, ◌>>◌}
use food_delivery_analytics.Messaging.Broker.{
  ConsumerOptions, ExchangeArgs, QueueArgs, BindArgs, ConsumeArgs, Amqp, wrap_result, wrapped,
  topic, durable_queue, binding, bind_keys, assert_topology, consume,
}

-- One call, and what it does on a channel.
pub data Command : Type 0 where
  declare_exchange : ExchangeArgs → Command
  declare_queue : QueueArgs → Command
  bind_queue : BindArgs → Command
  set_prefetch : ℤ → Command
  start_consuming : ConsumeArgs → Command

abbrev pub perform : {W : Type 0} → Amqp W → ℕ → Command → Action W (Unit {0})
perform amqp ch (declare_exchange args) = amqp.exchange_declare ch args
perform amqp ch (declare_queue args) = amqp.queue_declare ch args
perform amqp ch (bind_queue args) = amqp.queue_bind ch args
perform amqp ch (set_prefetch n) = amqp.qos ch n (pos 0) false
perform amqp ch (start_consuming args) = amqp.consume ch args

-- Calls one after another, up to the first that fails.
abbrev pub run_all :
    {W : Type 0} → (Command → Action W (Unit {0})) → List Command → Action W (Unit {0})
run_all f [] = pure tt
run_all f (c ∷ cs) = f c >> run_all f cs

abbrev pub bindings : ConsumerOptions → List String → List Command
bindings opts keys = map (λ key. bind_queue (binding opts.queue key opts.exchange)) keys

-- Without a dead-letter exchange: the exchange, the queue and its bindings. With one, that
-- exchange and a queue that is bound to all of it come before the queue, which names it.
abbrev pub topology : ConsumerOptions → List Command
topology opts =
    if opts.dead_letter_exchange == ""
    then declare_exchange (topic opts.exchange)
      ∷ declare_queue (durable_queue opts.queue [])
      ∷ bindings opts opts.binding_keys
    else declare_exchange (topic opts.exchange)
      ∷ declare_exchange (topic opts.dead_letter_exchange)
      ∷ declare_queue (durable_queue opts.dead_letter_queue [])
      ∷ bind_queue (binding opts.dead_letter_queue "#" opts.dead_letter_exchange)
      ∷ declare_queue
          (durable_queue opts.queue (("x-dead-letter-exchange", opts.dead_letter_exchange) ∷ []))
      ∷ bindings opts opts.binding_keys

abbrev pub consumer_args : ConsumerOptions → ConsumeArgs
consumer_args opts = record {
  queue = opts.queue;
  consumer = "";
  auto_ack = false;
  exclusive = false;
  no_local = false;
  no_wait = false;
}

-- Then the limit on unsettled messages, and a consumer that settles them itself.
abbrev pub plan : ConsumerOptions → List Command
plan opts = topology opts ++ set_prefetch opts.prefetch ∷ start_consuming (consumer_args opts) ∷ []

abbrev pub succeeded : Result (Unit {0}) → Bool
succeeded (ok _) = true
succeeded (err _) = false

module _ {W : Type 0} where
  -- The same success and the same world after it; the errors may be worded otherwise.
  abbrev pub Agrees : Action W (Unit {0}) → Action W (Unit {0}) → Type 0
  Agrees m n = (w : W) → (succeeded (m w).0 ≡ succeeded (n w).0) × ((m w).1 ≡ (n w).1)

  continue_assoc :
      (r : Result (Unit {0})) (k l : Action W (Unit {0})) (w : W)
      → (let (r', w') = continue r (λ _. k) w in continue r' (λ _. l) w')
        ≡ continue r (λ _. k >> l) w
  continue_assoc (ok _) k l w = refl
  continue_assoc (err e) k l w = refl

  bind_assoc : (m k l : Action W (Unit {0})) → ((m >> k) >> l) ≡ (m >> (k >> l))
  bind_assoc m k l = fun_ext λ w. continue_assoc (m w).0 k l (m w).1

  bind_pure : (m : Action W (Unit {0})) → (m >> pure tt) ≡ m
  bind_pure m = fun_ext λ w. split (m w).0 (m w).1
    where
      split : (r : Result (Unit {0})) (w : W) → continue r (λ _. pure tt) w ≡ (r, w)
      split (ok _) w = refl
      split (err _) w = refl

  run_all-append :
      (f : Command → Action W (Unit {0})) (cs ds : List Command)
      → run_all f (cs ++ ds) ≡ (run_all f cs >> run_all f ds)
  run_all-append f [] ds = refl
  run_all-append f (c ∷ cs) ds =
      ap (λ rest. f c >> rest) (run_all-append f cs ds)
      ∙ sym (bind_assoc (f c) (run_all f cs) (run_all f ds))

  wrapped-Agrees : (message : String) (m : Action W (Unit {0})) → Agrees (wrapped message m) m
  wrapped-Agrees message m w = (split (m w).0, refl)
    where
      split : (r : Result (Unit {0})) → succeeded (wrap_result message r) ≡ succeeded r
      split (ok _) = refl
      split (err _) = refl

  continue-Agrees :
      (r r' : Result (Unit {0})) (k k' : Action W (Unit {0})) (w : W)
      → Agrees k k'
      → succeeded r ≡ succeeded r'
      → (succeeded (continue r (λ _. k) w).0 ≡ succeeded (continue r' (λ _. k') w).0)
        × ((continue r (λ _. k) w).1 ≡ (continue r' (λ _. k') w).1)
  continue-Agrees (ok _) (ok _) k k' w h same = h w
  continue-Agrees (ok _) (err _) k k' w h same = cc same
  continue-Agrees (err _) (ok _) k k' w h same = cc same
  continue-Agrees (err _) (err _) k k' w h same = (refl, refl)

  bind-Agrees :
      (m m' k k' : Action W (Unit {0})) → Agrees m m' → Agrees k k' → Agrees (m >> k) (m' >> k')
  bind-Agrees m m' k k' h g w =
      let (same, same_world) = h w in
      rw same_world (continue-Agrees (m w).0 (m' w).0 k k' (m' w).1 g same)

module _ {W : Type 0} (amqp : Amqp W) (ch : ℕ) (opts : ConsumerOptions) where
  abbrev perform_all : List Command → Action W (Unit {0})
  perform_all = run_all (perform amqp ch)

  bind_keys-run_all :
      (keys : List String) → bind_keys amqp ch opts keys ≡ perform_all (bindings opts keys)
  bind_keys-run_all [] = refl
  bind_keys-run_all (key ∷ keys) =
      ap (λ rest. amqp.queue_bind ch (binding opts.queue key opts.exchange) >> rest)
        (bind_keys-run_all keys)

  assert_topology-run_all : assert_topology amqp ch opts ≡ perform_all (topology opts)
  unfolding assert_topology
  assert_topology-run_all = elim (Bool-cases (opts.dead_letter_exchange == "")) [
    | inl absent ↦ rw absent (rw (bind_keys-run_all opts.binding_keys) refl)
    | inr present ↦ rw present (
        rw (bind_keys-run_all opts.binding_keys) (
          let declared = amqp.queue_declare ch (
            durable_queue opts.queue
              (("x-dead-letter-exchange", opts.dead_letter_exchange) ∷ [])) in
          let bound = declared >> perform_all (bindings opts opts.binding_keys) in
          let exchange = amqp.exchange_declare ch (topic opts.dead_letter_exchange) in
          let queue = amqp.queue_declare ch (durable_queue opts.dead_letter_queue []) in
          let bind =
            amqp.queue_bind ch (binding opts.dead_letter_queue "#" opts.dead_letter_exchange) in
          ap (λ rest. amqp.exchange_declare ch (topic opts.exchange) >> rest)
            (bind_assoc exchange (queue >> bind) bound
              ∙ ap (λ rest. exchange >> rest) (bind_assoc queue bind bound))))
  ]

  abbrev limit : Action W (Unit {0})
  limit = amqp.qos ch opts.prefetch (pos 0) false

  abbrev start : Action W (Unit {0})
  start = amqp.consume ch (consumer_args opts)

  assert_topology-Agrees :
      Agrees
        (wrapped "assert topology: " (assert_topology amqp ch opts))
        (perform_all (topology opts))
  assert_topology-Agrees =
      rw assert_topology-run_all (wrapped-Agrees "assert topology: " (perform_all (topology opts)))

  start-Agrees : Agrees (wrapped "consume: " start) (start >> pure tt)
  start-Agrees =
      subst (λ (n : Action W (Unit {0})). Agrees (wrapped "consume: " start) n)
        (sym (bind_pure start)) (wrapped-Agrees "consume: " start)

  -- `Consume` makes the calls of its plan in their order, up to the first that fails: it succeeds
  -- exactly if they all do, and leaves what they leave.
  pub consume-Agrees : Agrees (consume amqp ch opts) (perform_all (plan opts))
  unfolding consume
  consume-Agrees = rw (run_all-append (perform amqp ch) (topology opts)) (
      bind-Agrees (wrapped "assert topology: " (assert_topology amqp ch opts))
        (perform_all (topology opts)) (wrapped "qos: " limit >> wrapped "consume: " start)
        (limit >> (start >> pure tt)) assert_topology-Agrees
        (bind-Agrees (wrapped "qos: " limit) limit (wrapped "consume: " start) (start >> pure tt)
          (wrapped-Agrees "qos: " limit) start-Agrees))

-- ===== src/EventHandlers/Dispatch.antt =====
-- What each message means for the counters, and that the registered handlers do it: handlers.go and
-- consumer.go over analytics_service.go, put together as in lib/boot/boot.go.
use food_delivery_analytics.Prelude.{
  String, ◌≡◌, refl, ◌∙◌, Bool, true, false, Option, none, some, ◌==◌, if◌then◌else◌,
}
use food_delivery_analytics.Effect.{Action, Result, ok, err, lift, ◌>>=◌, ◌>>◌, bind-eq-ok}
use food_delivery_analytics.Mongo.Document.{Time}
use food_delivery_analytics.Mongo.Driver.{Driver, WriteLaws}
use food_delivery_analytics.Repository.Book.{Book, book, book_same}
use food_delivery_analytics.Repository.EventIds
use food_delivery_analytics.Service.Calendar.{Calendar}
use food_delivery_analytics.Service.Ledger.{day_of, placed, delivered, paid, cancelled}
use food_delivery_analytics.Service.Handlers.{
  handle_order_placed_refines, handle_order_delivered_refines, handle_payment_succeeded_refines,
  handle_order_cancelled_refines,
}
use food_delivery_analytics.CoreEvents.Codec.{Codec, Envelope}
use food_delivery_analytics.CoreEvents.Consumer.{
  Message, EventHandler, Consumer, lookup, new_consumer, dispatch,
}
use food_delivery_analytics.EventHandlers.{register_all}

-- The consumer of order and payment events, as `boot.Run` builds it.
abbrev pub event_consumer : {W : Type 0} → Driver W → Calendar → Codec → Consumer W
event_consumer db cal codec =
    register_all db cal codec (new_consumer (record { mark_seen = EventIds.mark_seen db }))

abbrev pub on_ok : {A : Type 0} → Result A → (A → Book → Book) → Book → Book
on_ok (ok a) step b = step a b
on_ok (err _) step b = b

-- What an event means for the counters: by its routing key, on the day of its timestamp or of `t`.
abbrev pub event_step : Calendar → Codec → String → String → Time → Book → Book
event_step cal codec key payload t b =
    if "order.placed" == key
    then on_ok (codec.order_placed payload) (λ i. placed (day_of cal i.placed_at t) i) b
    else if "order.delivered" == key
    then on_ok (codec.order_delivered payload) (λ i. delivered (day_of cal i.delivered_at t) i) b
    else if "payment.succeeded" == key
    then on_ok (codec.payment_succeeded payload) (λ i. paid (day_of cal i.paid_at t) i) b
    else if "order.cancelled" == key
    then on_ok (codec.order_cancelled payload) (λ i. cancelled (day_of cal i.cancelled_at t) i) b
    else b

-- What a message means: nothing if its envelope cannot be read, has no event id, or has one that
-- was seen; else what its event means. `t` is the clock's reading once the id has been marked.
abbrev pub message_step :
    Calendar → Codec → (String → Bool) → (String → Time) → String → Result Envelope → Book → Book
message_step cal codec was_seen t key (err _) b = b
message_step cal codec was_seen t key (ok envelope) b =
    if envelope.event_id == ""
    then b
    else if was_seen envelope.event_id
    then b
    else event_step cal codec key envelope.payload (t envelope.event_id) b

-- Acknowledging a message touches no collection.
abbrev pub AckKeeps : {W : Type 0} → Driver W → Message W → Type 0
AckKeeps {W} db msg = (w : W) (c : String) → db.documents (msg.ack w).1 c ≡ db.documents w c

-- The view moves by a step that depends on the clock.
pub record RefinesAt {W : Type 0} (db : Driver W) (m : Action W (Unit {0}))
    (step : Time → Book → Book) : Type 0 where
  pub at : (w : W) → (m w).0 ≡ ok tt → book db (m w).1 ≡ step (db.now w).0 (book db w)

module _ {W : Type 0} (db : Driver W) where
  RefinesAt-decoded :
      {A : Type 0} (r : Result A) (run : A → Action W (Unit {0})) (step : A → Time → Book → Book)
      → ((a : A) → RefinesAt db (run a) (step a))
      → RefinesAt db (lift r >>= run) (λ t. on_ok r (λ a. step a t))
  RefinesAt-decoded (ok a) run step h = record { at = λ w e. (h a).at w e }
  RefinesAt-decoded (err x) run step h = record { at = λ w e. cc }

  RefinesAt-acked :
      (msg : Message W) (m : Action W (Unit {0})) (step : Time → Book → Book)
      → AckKeeps db msg
      → RefinesAt db m step
      → RefinesAt db (m >> msg.ack) step
  RefinesAt-acked msg m step keeps h = record {
    at = λ w e.
        let (a, first, rest) = bind-eq-ok m (λ _. msg.ack) w e in
        rw rest (book_same db (msg.ack (m w).1).1 (m w).1 (keeps (m w).1) ∙ h.at w first);
  }

  -- A message that is only acknowledged moves nothing.
  RefinesAt-ack : (msg : Message W) → AckKeeps db msg → RefinesAt db msg.ack (λ t b. b)
  RefinesAt-ack msg keeps = record { at = λ w e. book_same db (msg.ack w).1 w (keeps w) }

-- `dispatch` by what the lookup finds.
abbrev pub run_found :
    {W : Type 0} → Option (EventHandler W) → Message W → String → Action W (Unit {0})
run_found none msg payload = msg.ack
run_found (some handler) msg payload = handler payload >> msg.ack

pub dispatch-run_found :
    {W : Type 0} (c : Consumer W) (msg : Message W) (envelope : Envelope)
    → dispatch c msg envelope ≡ run_found (lookup msg.routing_key c.handlers) msg envelope.payload
unfolding dispatch
dispatch-run_found c msg envelope = split (lookup msg.routing_key c.handlers)
  where
    split :
        (o : Option (EventHandler _))
        → (elim o [ none ↦ msg.ack | some handler ↦ (handler envelope.payload >> msg.ack) ])
          ≡ run_found o msg envelope.payload
    split none = refl
    split (some handler) = refl

module _ {W : Type 0} (db : Driver W) (msg : Message W) (keeps : AckKeeps db msg) where
  -- One handler of the map, in front of the others.
  RefinesAt-case :
      {A : Type 0} (payload : String) (b : Bool) (decode : String → Result A)
      (run : A → Action W (Unit {0})) (step : A → Time → Book → Book)
      (others : Option (EventHandler W)) (t : Time → Book → Book)
      → ((a : A) → RefinesAt db (run a) (step a))
      → RefinesAt db (run_found others msg payload) t
      → RefinesAt db
          (run_found (if b then some (λ p. lift (decode p) >>= run) else others) msg payload)
          (λ τ k. if b then on_ok (decode payload) (λ a. step a τ) k else t τ k)
  RefinesAt-case payload true decode run step others t h ht =
      RefinesAt-acked db msg (lift (decode payload) >>= run)
        (λ τ. on_ok (decode payload) (λ a. step a τ)) keeps
        (RefinesAt-decoded db (decode payload) run step h)
  RefinesAt-case payload false decode run step others t h ht = ht

module _ {W : Type 0} (db : Driver W) (laws : WriteLaws db) (cal : Calendar) (codec : Codec) where
  pub dispatch-RefinesAt :
      (msg : Message W) (envelope : Envelope)
      → AckKeeps db msg
      → RefinesAt db
          (dispatch (event_consumer db cal codec) msg envelope)
          (event_step cal codec msg.routing_key envelope.payload)
  dispatch-RefinesAt msg envelope keeps =
      let p = envelope.payload in
      rw dispatch-run_found (
        RefinesAt-case db msg keeps p ("order.placed" == msg.routing_key) codec.order_placed _ _ _ _
          (λ i. record { at = handle_order_placed_refines db laws cal i })
          (RefinesAt-case db msg keeps p ("order.delivered" == msg.routing_key)
            codec.order_delivered _ _ _ _
            (λ i. record { at = handle_order_delivered_refines db laws cal i })
            (RefinesAt-case db msg keeps p ("payment.succeeded" == msg.routing_key)
              codec.payment_succeeded _ _ _ _
              (λ i. record { at = handle_payment_succeeded_refines db laws cal i })
              (RefinesAt-case db msg keeps p ("order.cancelled" == msg.routing_key)
                codec.order_cancelled _ _ none _
                (λ i. record { at = handle_order_cancelled_refines db laws cal i })
                (RefinesAt-ack db msg keeps)))))

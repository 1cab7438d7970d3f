-- ===== src/EventHandlers/Progress.antt =====
-- On a database that is up, a message whose payload can be decoded is handled without an error.
use food_delivery_analytics.Prelude.{
  String, ◌≡◌, refl, Bool, true, false, inl, inr, Option, none, some, ◌==◌, if◌then◌else◌,
}
use food_delivery_analytics.Effect.{Action, Result, ok, err, lift, ◌>>=◌}
use food_delivery_analytics.Mongo.Document.{Time}
use food_delivery_analytics.Mongo.Driver.{Driver, WriteLaws, UniqueIndex, clock}
use food_delivery_analytics.Mongo.Up.{StaysUp, Returns, Returns-bind, Returns-if, Returns-clock}
use food_delivery_analytics.Analytics.Enums.{collection_event_ids}
use food_delivery_analytics.Repository.Book.{book}
use food_delivery_analytics.Repository.EventIds
use food_delivery_analytics.Repository.EventIds.{event_document, first_time}
use food_delivery_analytics.Repository.EventIds.Effects.{seen}
use food_delivery_analytics.Service.Calendar.{Calendar}
use food_delivery_analytics.Service.Progress.{
  handle_order_placed-Returns, handle_order_delivered-Returns, handle_payment_succeeded-Returns,
  handle_order_cancelled-Returns,
}
use food_delivery_analytics.CoreEvents.Codec.{Codec, Envelope}
use food_delivery_analytics.CoreEvents.Consumer.{Message, EventHandler, dispatch, on_message}
use food_delivery_analytics.EventHandlers.Dispatch.{
  event_consumer, message_step, AckKeeps, run_found, dispatch-run_found,
}
use food_delivery_analytics.EventHandlers.Pipeline.{run_envelope, on_message-run_envelope}
use food_delivery_analytics.EventHandlers.Delivery.{on_message_refines}

-- The codec can decode the payload of a message with this routing key, if the key is handled.
pub record IsReadable (codec : Codec) (key payload : String) : Type 0 where
  pub placed_reads : ("order.placed" == key) ≡ true → (i : _) × (codec.order_placed payload ≡ ok i)
  pub delivered_reads :
      ("order.delivered" == key) ≡ true → (i : _) × (codec.order_delivered payload ≡ ok i)
  pub paid_reads :
      ("payment.succeeded" == key) ≡ true → (i : _) × (codec.payment_succeeded payload ≡ ok i)
  pub cancelled_reads :
      ("order.cancelled" == key) ≡ true → (i : _) × (codec.order_cancelled payload ≡ ok i)

module _ {W : Type 0} (db : Driver W) (Up : W → Type 0) (ups : StaysUp db Up) where
  mark_seen-Returns : (id : String) → Returns Up (EventIds.mark_seen db id)
  unfolding EventIds.mark_seen
  mark_seen-Returns id =
      let marking : Time → Action W Bool = λ t w.
        let (r, w') = db.insert_one collection_event_ids (event_document id t) w in
        (first_time r, w') in
      Returns-bind Up (clock db) marking (Returns-clock db Up ups) (λ t. record {
        at = λ w up.
            let (outcome, up') =
              ups.insert_one_up collection_event_ids (event_document id t) w up in
            elim outcome [
              | inl fresh ↦ (true, rw fresh refl, up')
              | inr stale ↦ (false, rw stale refl, up')
            ];
      })

  module _ (msg : Message W) (acks : Returns Up msg.ack) where
    found-Returns :
        {A : Type 0} (payload : String) (b : Bool) (decode : String → Result A)
        (run : A → Action W (Unit {0})) (others : Option (EventHandler W))
        → (b ≡ true → (a : A) × (decode payload ≡ ok a))
        → ((a : A) → Returns Up (run a))
        → Returns Up (run_found others msg payload)
        → Returns Up
            (run_found (if b then some (λ p. lift (decode p) >>= run) else others) msg payload)
    found-Returns payload true decode run others reads h ht =
        let (a, e) = reads refl in
        Returns-bind Up (lift (decode payload) >>= run) (λ _. msg.ack)
          (Returns-bind Up (lift (decode payload)) run (record { at = λ w up. (a, e, up) }) h)
          (λ _. acks)
    found-Returns payload false decode run others reads h ht = ht

    module _ (cal : Calendar) (codec : Codec) where
      dispatch-Returns :
          (envelope : Envelope)
          → IsReadable codec msg.routing_key envelope.payload
          → Returns Up (dispatch (event_consumer db cal codec) msg envelope)
      dispatch-Returns envelope reads =
          let p = envelope.payload in
          rw dispatch-run_found (
            found-Returns p ("order.placed" == msg.routing_key) codec.order_placed _ _
              reads.placed_reads (handle_order_placed-Returns db Up ups cal)
              (found-Returns p ("order.delivered" == msg.routing_key) codec.order_delivered _ _
                reads.delivered_reads (handle_order_delivered-Returns db Up ups cal)
                (found-Returns p ("payment.succeeded" == msg.routing_key) codec.payment_succeeded _
                  _ reads.paid_reads (handle_payment_succeeded-Returns db Up ups cal)
                  (found-Returns p ("order.cancelled" == msg.routing_key) codec.order_cancelled _
                    none reads.cancelled_reads (handle_order_cancelled-Returns db Up ups cal)
                    acks))))

      run_envelope-Returns :
          (r : Result Envelope)
          → ((e : Envelope) → r ≡ ok e → IsReadable codec msg.routing_key e.payload)
          → Returns Up (run_envelope (event_consumer db cal codec) msg r)
      run_envelope-Returns (err x) reads = record { at = acks.at }
      run_envelope-Returns (ok e) reads = Returns-if Up (e.event_id == "") _ _ acks (
          Returns-bind Up _ _ (mark_seen-Returns e.event_id)
            (λ first. Returns-if Up first _ _ (dispatch-Returns e (reads e refl)) acks))

module _ {W : Type 0} (db : Driver W) (laws : WriteLaws db)
    (index : UniqueIndex db collection_event_ids "event_id") (Up : W → Type 0) (ups : StaysUp db Up)
    (cal : Calendar) (codec : Codec) where
  -- On a database that is up, with a broker that takes acknowledgements, a message whose envelope
  -- cannot be read or whose payload can be decoded is handled without an error, and moves the
  -- counters by exactly its meaning.
  pub on_message_total :
      (msg : Message W) (w : W)
      → AckKeeps db msg
      → Returns Up msg.ack
      → ((e : Envelope)
          → codec.envelope msg.body ≡ ok e
          → IsReadable codec msg.routing_key e.payload)
      → Up w
      → ((on_message codec (event_consumer db cal codec) msg w).0 ≡ ok tt)
        × (book db (on_message codec (event_consumer db cal codec) msg w).1
            ≡ message_step cal codec
                (seen db w)
                (λ id. (db.now (EventIds.mark_seen db id w).1).0)
                msg.routing_key
                (codec.envelope msg.body)
                (book db w))
  on_message_total msg w keeps acks reads up =
      let (_, done, _) =
        (run_envelope-Returns db Up ups msg acks cal codec (codec.envelope msg.body) reads).at w
          up in
      let done' : (on_message codec (event_consumer db cal codec) msg w).0 ≡ ok tt =
        rw on_message-run_envelope done in
      (done', on_message_refines db laws index cal codec msg w keeps done')

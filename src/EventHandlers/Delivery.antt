-- ===== src/EventHandlers/Delivery.antt =====
-- The event pipeline as the broker runs it: amqp.go's loop over the consumer's handler.
use food_delivery_analytics.Prelude.{
  ℕ, String, ◌≡◌, refl, ◌∙◌, Bool, true, false, List, [], ◌∷◌, ◌==◌,
}
use food_delivery_analytics.Effect.{Action, Result, ok, err}
use food_delivery_analytics.Mongo.Driver.{Driver, WriteLaws, UniqueIndex}
use food_delivery_analytics.Analytics.Enums.{collection_event_ids}
use food_delivery_analytics.Repository.Book.{book, book_same}
use food_delivery_analytics.Repository.EventIds
use food_delivery_analytics.Repository.EventIds.Effects.{seen, seen_same}
use food_delivery_analytics.Service.Calendar.{Calendar}
use food_delivery_analytics.CoreEvents.Codec.{Codec, Envelope}
use food_delivery_analytics.CoreEvents.Consumer.{Message, on_message}
use food_delivery_analytics.Messaging.{Channel, Delivery, message_of, deliver, consume_loop}
use food_delivery_analytics.EventHandlers.Dispatch.{event_consumer, AckKeeps, message_step}
use food_delivery_analytics.EventHandlers.Pipeline.{on_message-run_envelope, run_envelope_refines}
use food_delivery_analytics.EventHandlers.Once.{seen_envelope, seen_marked, duplicate_envelope}

-- Settling a delivery touches no collection.
pub record ChannelKeeps {W : Type 0} (db : Driver W) (ch : Channel W) : Type 0 where
  pub acks :
      (tag : ℕ) (multiple : Bool) (w : W) (c : String)
      → db.documents (ch.ack tag multiple w).1 c ≡ db.documents w c
  pub nacks :
      (tag : ℕ) (multiple requeue : Bool) (w : W) (c : String)
      → db.documents (ch.nack tag multiple requeue w).1 c ≡ db.documents w c

module _ {W : Type 0} (db : Driver W) (ch : Channel W) (keeps : ChannelKeeps db ch) where
  -- What a delivery leaves in the database is what its handler leaves there.
  deliver_documents :
      (handler : Message W → Action W (Unit {0})) (d : Delivery) (w : W) (c : String)
      → db.documents (deliver ch handler d w) c ≡ db.documents (handler (message_of ch d) w).1 c
  unfolding deliver
  deliver_documents handler d w c =
      split (handler (message_of ch d) w).0 (handler (message_of ch d) w).1
    where
      split :
          (r : Result (Unit {0})) (v : W)
          → db.documents (elim r [ ok _ ↦ v | err _ ↦ (ch.nack d.tag false false v).1 ]) c
            ≡ db.documents v c
      split (ok _) v = refl
      split (err _) v = keeps.nacks d.tag false false v c

module _ {W : Type 0} (db : Driver W) (laws : WriteLaws db)
    (index : UniqueIndex db collection_event_ids "event_id") (cal : Calendar) (codec : Codec) where
  -- A message that is handled without an error moves the counters by exactly its meaning: by its
  -- event's step if the envelope can be read, has an id, and the id was not seen; else not at all.
  -- Acknowledging is assumed to touch no collection.
  pub on_message_refines :
      (msg : Message W) (w : W)
      → AckKeeps db msg
      → (on_message codec (event_consumer db cal codec) msg w).0 ≡ ok tt
      → book db (on_message codec (event_consumer db cal codec) msg w).1
        ≡ message_step cal codec
            (seen db w)
            (λ id. (db.now (EventIds.mark_seen db id w).1).0)
            msg.routing_key
            (codec.envelope msg.body)
            (book db w)
  on_message_refines msg w keeps =
      rw on_message-run_envelope
        (run_envelope_refines db laws index cal codec msg keeps (codec.envelope msg.body) w)

  module _ (ch : Channel W) (keeps : ChannelKeeps db ch) where
    abbrev handle : Message W → Action W (Unit {0})
    handle = on_message codec (event_consumer db cal codec)

    message_keeps : (d : Delivery) → AckKeeps db (message_of ch d)
    message_keeps d w c = keeps.acks d.tag false w c

    deliver-seen :
        (d : Delivery) (w : W) (id : String)
        → seen db w id ≡ true
        → seen db (deliver ch handle d w) id ≡ true
    deliver-seen d w id h =
        seen_same db (deliver ch handle d w) (handle (message_of ch d) w).1 id
          (deliver_documents db ch keeps handle d w collection_event_ids)
        ∙ rw on_message-run_envelope (
            seen_envelope db laws cal codec (message_of ch d) (message_keeps d) index
              (codec.envelope d.body) w id h)

    consume_loop-seen :
        (ds : List Delivery) (w : W) (id : String)
        → seen db w id ≡ true
        → seen db (consume_loop ch handle ds w) id ≡ true
    unfolding consume_loop
    consume_loop-seen [] w id h = h
    consume_loop-seen (d ∷ ds) w id h =
        consume_loop-seen ds (deliver ch handle d w) id (deliver-seen d w id h)

    -- Delivering a message whose id is seen moves no counter.
    deliver_duplicate :
        (d : Delivery) (envelope : Envelope) (w : W)
        → codec.envelope d.body ≡ ok envelope
        → (envelope.event_id == "") ≡ false
        → seen db w envelope.event_id ≡ true
        → book db (deliver ch handle d w) ≡ book db w
    deliver_duplicate d envelope w read given stale =
        book_same db (deliver ch handle d w) (handle (message_of ch d) w).1
          (deliver_documents db ch keeps handle d w)
        ∙ rw (on_message-run_envelope, read)
            (duplicate_envelope db laws cal codec (message_of ch d) (message_keeps d) index envelope
              w given stale)

    deliver_marks :
        (d : Delivery) (envelope : Envelope) (answer : Bool) (w : W)
        → codec.envelope d.body ≡ ok envelope
        → (envelope.event_id == "") ≡ false
        → (EventIds.mark_seen db envelope.event_id w).0 ≡ ok answer
        → seen db (deliver ch handle d w) envelope.event_id ≡ true
    deliver_marks d envelope answer w read given marked =
        seen_same db (deliver ch handle d w) (handle (message_of ch d) w).1 envelope.event_id
          (deliver_documents db ch keeps handle d w collection_event_ids)
        ∙ rw (on_message-run_envelope, read)
            (seen_marked db laws cal codec (message_of ch d) (message_keeps d) index envelope w
              answer given marked)

    -- Once the id of a delivery has been marked without an error, whether its handler then succeeds
    -- or fails, a later delivery with the same id moves no counter, whatever arrives in between.
    pub counted_once :
        (first : Delivery) (between : List Delivery) (again : Delivery) (e e' : Envelope)
        (answer : Bool) (w : W)
        → codec.envelope first.body ≡ ok e
        → codec.envelope again.body ≡ ok e'
        → e.event_id ≡ e'.event_id
        → (e.event_id == "") ≡ false
        → (EventIds.mark_seen db e.event_id w).0 ≡ ok answer
        → let v = consume_loop ch handle (first ∷ between) w in
          book db (deliver ch handle again v) ≡ book db v
    unfolding consume_loop
    counted_once first between again e e' answer w read read' same given marked =
        let v = consume_loop ch handle (first ∷ between) w in
        let stale =
          consume_loop-seen between (deliver ch handle first w) e.event_id
            (deliver_marks first e answer w read given marked) in
        deliver_duplicate again e' v read' (rw same at given) (rw same at stale)

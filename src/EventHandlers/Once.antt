-- ===== src/EventHandlers/Once.antt =====
-- Deduplication: an event whose id has been marked is never counted again.
use food_delivery_analytics.Prelude.{
  String, ◌≡◌, refl, ◌∙◌, Bool, true, false, Bool-cases, inl, inr, Option, none, some, ◌==◌,
  eq_refl, if◌then◌else◌,
}
use food_delivery_analytics.Effect.{Action, Result, ok, err, lift, ◌>>=◌, continue}
use food_delivery_analytics.Mongo.Driver.{Driver, WriteLaws, UniqueIndex}
use food_delivery_analytics.Mongo.Keeps.{Keeps, Keeps-lift, Keeps-bind}
use food_delivery_analytics.Analytics.Enums.{collection_event_ids}
use food_delivery_analytics.Repository.Book.{book, book_same, book_kept}
use food_delivery_analytics.Repository.EventIds
use food_delivery_analytics.Repository.EventIds.Effects.{
  seen, seen_same, mark_seen_first, mark_seen_again, mark_seen_frame, mark_seen_monotone,
}
use food_delivery_analytics.Service.Calendar.{Calendar}
use food_delivery_analytics.Service.Footprint.{
  handle_order_placed-Keeps, handle_order_delivered-Keeps, handle_payment_succeeded-Keeps,
  handle_order_cancelled-Keeps,
}
use food_delivery_analytics.CoreEvents.Codec.{Codec, Envelope}
use food_delivery_analytics.CoreEvents.Consumer.{Message, EventHandler, dispatch}
use food_delivery_analytics.EventHandlers.Dispatch.{
  event_consumer, AckKeeps, run_found, dispatch-run_found,
}
use food_delivery_analytics.EventHandlers.Pipeline.{run_envelope}

module _ {W : Type 0} (db : Driver W) (laws : WriteLaws db) (cal : Calendar) (codec : Codec)
    (msg : Message W) (keeps : AckKeeps db msg) where
  abbrev c : String
  c = collection_event_ids

  found-Keeps :
      {A : Type 0} (payload : String) (b : Bool) (decode : String → Result A)
      (run : A → Action W (Unit {0})) (others : Option (EventHandler W))
      → ((a : A) → Keeps db c (run a))
      → Keeps db c (run_found others msg payload)
      → Keeps db c
          (run_found (if b then some (λ p. lift (decode p) >>= run) else others) msg payload)
  found-Keeps payload true decode run others h ht =
      Keeps-bind db c (lift (decode payload) >>= run) (λ _. msg.ack)
        (Keeps-bind db c (lift (decode payload)) run (Keeps-lift db c (decode payload)) h)
        (λ _. record { at = λ w. keeps w c })
  found-Keeps payload false decode run others h ht = ht

  -- Running a handler, also one that fails, forgets and adds no event id.
  dispatch-Keeps :
      (envelope : Envelope) → Keeps db c (dispatch (event_consumer db cal codec) msg envelope)
  dispatch-Keeps envelope =
      let p = envelope.payload in
      rw dispatch-run_found (
        found-Keeps p ("order.placed" == msg.routing_key) codec.order_placed _ _
          (handle_order_placed-Keeps db laws cal)
          (found-Keeps p ("order.delivered" == msg.routing_key) codec.order_delivered _ _
            (handle_order_delivered-Keeps db laws cal)
            (found-Keeps p ("payment.succeeded" == msg.routing_key) codec.payment_succeeded _ _
              (handle_payment_succeeded-Keeps db laws cal)
              (found-Keeps p ("order.cancelled" == msg.routing_key) codec.order_cancelled _ none
                (handle_order_cancelled-Keeps db laws cal) (record { at = λ w. keeps w c })))))

  -- What follows the marking of an id, by the answer that it gave.
  abbrev after_mark : Envelope → Bool → Action W (Unit {0})
  after_mark envelope first_time =
      if first_time then dispatch (event_consumer db cal codec) msg envelope else msg.ack

  after_mark-Keeps : (envelope : Envelope) (b : Bool) → Keeps db c (after_mark envelope b)
  after_mark-Keeps envelope true = dispatch-Keeps envelope
  after_mark-Keeps envelope false = record { at = λ w. keeps w c }

  continue-Keeps :
      (r : Result Bool) (envelope : Envelope) → Keeps db c (continue r (after_mark envelope))
  continue-Keeps (ok b) envelope = record { at = (after_mark-Keeps envelope b).at }
  continue-Keeps (err e) envelope = record { at = λ w. refl }

  -- An envelope with an id: the id is marked, and what follows depends on the answer.
  run_given :
      (envelope : Envelope) (w : W)
      → (envelope.event_id == "") ≡ false
      → run_envelope (event_consumer db cal codec) msg (ok envelope) w
        ≡ continue
            (EventIds.mark_seen db envelope.event_id w).0
            (after_mark envelope)
            (EventIds.mark_seen db envelope.event_id w).1
  run_given envelope w given = rw given

  -- The ids that are seen afterwards are those that are seen once the id has been marked.
  seen_given :
      (envelope : Envelope) (w : W) (id : String)
      → (envelope.event_id == "") ≡ false
      → seen db (run_envelope (event_consumer db cal codec) msg (ok envelope) w).1 id
        ≡ seen db (EventIds.mark_seen db envelope.event_id w).1 id
  seen_given envelope w id given =
      let (r, v) = EventIds.mark_seen db envelope.event_id w in
      rw (run_given envelope w given) (
        seen_same db (continue r (after_mark envelope) v).1 v id ((continue-Keeps r envelope).at v))

  module _ (index : UniqueIndex db collection_event_ids "event_id") where
    -- No message makes an id unseen.
    pub seen_envelope :
        (r : Result Envelope) (w : W) (id : String)
        → seen db w id ≡ true
        → seen db (run_envelope (event_consumer db cal codec) msg r w).1 id ≡ true
    seen_envelope (err e) w id h = seen_same db (msg.ack w).1 w id (keeps w c) ∙ h
    seen_envelope (ok envelope) w id h = elim (Bool-cases (envelope.event_id == "")) [
      | inl missing ↦ rw missing (seen_same db (msg.ack w).1 w id (keeps w c) ∙ h)
      | inr given ↦
          seen_given envelope w id given ∙ mark_seen_monotone db laws index envelope.event_id id w h
    ]

    -- The id of a message is seen once it has been marked without an error.
    pub seen_marked :
        (envelope : Envelope) (w : W) (first : Bool)
        → (envelope.event_id == "") ≡ false
        → (EventIds.mark_seen db envelope.event_id w).0 ≡ ok first
        → seen db
            (run_envelope (event_consumer db cal codec) msg (ok envelope) w).1
            envelope.event_id
          ≡ true
    seen_marked envelope w true given answer =
        let (_, now_seen) = mark_seen_first db laws index envelope.event_id w answer in
        seen_given envelope w envelope.event_id given
        ∙ now_seen envelope.event_id
        ∙ rw (eq_refl envelope.event_id) refl
    seen_marked envelope w false answer_given answer =
        let (stale, same) = mark_seen_again db laws index envelope.event_id w answer in
        seen_given envelope w envelope.event_id answer_given ∙ same envelope.event_id ∙ stale

    -- A message whose id is seen moves no counter, whatever its handling reports.
    pub duplicate_envelope :
        (envelope : Envelope) (w : W)
        → (envelope.event_id == "") ≡ false
        → seen db w envelope.event_id ≡ true
        → book db (run_envelope (event_consumer db cal codec) msg (ok envelope) w).1 ≡ book db w
    duplicate_envelope envelope w given stale = rw (run_given envelope w given) (
        settled (EventIds.mark_seen db envelope.event_id w).0 refl
        ∙ book_kept db v w (mark_seen_frame db laws index envelope.event_id w))
      where
        v : W
        v = (EventIds.mark_seen db envelope.event_id w).1

        settled :
            (r : Result Bool)
            → (EventIds.mark_seen db envelope.event_id w).0 ≡ r
            → book db (continue r (after_mark envelope) v).1 ≡ book db v
        settled (ok true) answer =
            let fresh = (mark_seen_first db laws index envelope.event_id w answer).0 in
            absurd (cc fresh)
        settled (ok false) answer = book_same db (msg.ack v).1 v (keeps v)
        settled (err e) answer = refl

-- ===== src/EventHandlers/Settled.antt =====
-- How the deliveries of pkg/messaging/amqp.go are settled, over lib/coreevents/consumer.go.
use mathlib.Core.List.{append-nil, append_assoc}
use food_delivery_analytics.Prelude.{
  ℕ, String, ◌≡◌, refl, sym, ◌∙◌, ap, Bool, true, false, Option, none, some, List, [], ◌∷◌, ◌++◌,
  map, ◌==◌, if◌then◌else◌,
}
use food_delivery_analytics.Effect.{Action, Result, ok, err, continue, ◌>>=◌}
use food_delivery_analytics.Mongo.Driver.{Driver}
use food_delivery_analytics.Mongo.Untouched.{Leaves, Untouched}
use food_delivery_analytics.Repository.EventIds
use food_delivery_analytics.Repository.Untouched.{mark_seen-Leaves}
use food_delivery_analytics.Service.Calendar.{Calendar}
use food_delivery_analytics.CoreEvents.Codec.{Codec, Envelope}
use food_delivery_analytics.CoreEvents.Consumer.{Message, EventHandler, dispatch, on_message}
use food_delivery_analytics.Messaging.{Channel, Delivery, message_of, deliver, consume_loop}
use food_delivery_analytics.EventHandlers.Dispatch.{event_consumer, run_found, dispatch-run_found}
use food_delivery_analytics.EventHandlers.Pipeline.{run_envelope, on_message-run_envelope}
use food_delivery_analytics.EventHandlers.Untouched.{
  placed-Leaves, delivered-Leaves, paid-Leaves, cancelled-Leaves,
}

-- What a broker records of a delivery: that it was acknowledged, or rejected and put back or not.
pub data Settlement : Type 0 where
  acked : ℕ → Settlement
  nacked : ℕ → Bool → Settlement

abbrev pub tag_of : Settlement → ℕ
tag_of (acked tag) = tag
tag_of (nacked tag requeue) = tag

-- How a delivery ends: acknowledged if its handler succeeds, rejected for good if it fails.
abbrev pub verdict_on : ℕ → Result (Unit {0}) → Settlement
verdict_on tag (ok _) = acked tag
verdict_on tag (err _) = nacked tag false

tag_of-verdict_on : (tag : ℕ) (r : Result (Unit {0})) → tag_of (verdict_on tag r) ≡ tag
tag_of-verdict_on tag (ok _) = refl
tag_of-verdict_on tag (err _) = refl

-- Each call of a channel is recorded, and an acknowledgement is taken.
pub record Records {W : Type 0} (ch : Channel W) (settled : W → List Settlement) : Type 0 where
  pub takes_ack : (tag : ℕ) (w : W) → (ch.ack tag false w).0 ≡ ok tt
  pub acks : (tag : ℕ) (w : W) → settled (ch.ack tag false w).1 ≡ settled w ++ acked tag ∷ []
  pub nacks :
      (tag : ℕ) (requeue : Bool) (w : W)
      → settled (ch.nack tag false requeue w).1 ≡ settled w ++ nacked tag requeue ∷ []

module _ {W : Type 0} (settled : W → List Settlement) (tag : ℕ) where
  -- An action acknowledges the delivery if it succeeds, and settles nothing if it fails.
  abbrev pub AckedBy : List Settlement → Result (Unit {0}) × W → Type 0
  AckedBy before (ok _, w) = settled w ≡ before ++ acked tag ∷ []
  AckedBy before (err _, w) = settled w ≡ before

  pub record Acks (m : Action W (Unit {0})) : Type 0 where
    pub at : (w : W) → AckedBy (settled w) (m w)

  Acks-continue :
      {A : Type 0} (r : Result A) (f : A → Action W (Unit {0})) (w v : W)
      → settled v ≡ settled w
      → ((a : A) → Acks (f a))
      → AckedBy (settled w) (continue r f v)
  Acks-continue (ok a) f w v same h = rw (← same) ((h a).at v)
  Acks-continue (err e) f w v same h = same

  Acks-bind :
      {A : Type 0} (m : Action W A) (f : A → Action W (Unit {0}))
      → Leaves settled m
      → ((a : A) → Acks (f a))
      → Acks (m >>= f)
  Acks-bind m f hm hf = record { at = λ w. Acks-continue (m w).0 f w (m w).1 (hm.at w) hf }

  Acks-if : (b : Bool) (m n : Action W (Unit {0})) → Acks m → Acks n → Acks (if b then m else n)
  Acks-if true m n hm hn = hm
  Acks-if false m n hm hn = hn

  -- A handler that leaves the record alone, in front of the others.
  Acks-found :
      (b : Bool) (handler : EventHandler W) (others : Option (EventHandler W)) (msg : Message W)
      (payload : String)
      → Leaves settled (handler payload)
      → Acks msg.ack
      → Acks (run_found others msg payload)
      → Acks (run_found (if b then some handler else others) msg payload)
  Acks-found true handler others msg payload leaves ack rest =
      Acks-bind (handler payload) (λ _. msg.ack) leaves λ _. ack
  Acks-found false handler others msg payload leaves ack rest = rest

module _ {W : Type 0} (db : Driver W) (cal : Calendar) (codec : Codec) (ch : Channel W)
    (settled : W → List Settlement) (records : Records ch settled)
    (alone : Untouched db settled) where
  abbrev handle_message : Message W → Action W (Unit {0})
  handle_message = on_message codec (event_consumer db cal codec)

  ack-Acks : (d : Delivery) → Acks settled d.tag (message_of ch d).ack
  ack-Acks d = record {
    at = λ w.
        acked_by (ch.ack d.tag false w).0 (ch.ack d.tag false w).1 w (records.takes_ack d.tag w)
          (records.acks d.tag w);
  }
    where
      acked_by :
          (r : Result (Unit {0})) (v w : W)
          → r ≡ ok tt
          → settled v ≡ settled w ++ acked d.tag ∷ []
          → AckedBy settled d.tag (settled w) (r, v)
      acked_by (ok _) v w taken same = same
      acked_by (err e) v w taken same = cc taken

  dispatch-Acks :
      (d : Delivery) (envelope : Envelope)
      → Acks settled d.tag (dispatch (event_consumer db cal codec) (message_of ch d) envelope)
  dispatch-Acks d envelope =
      let msg = message_of ch d in
      let p = envelope.payload in
      let ack = ack-Acks d in
      rw dispatch-run_found (
        Acks-found settled d.tag ("order.placed" == d.routing_key) _ _ msg p
          (placed-Leaves db settled alone cal codec p) ack
          (Acks-found settled d.tag ("order.delivered" == d.routing_key) _ _ msg p
            (delivered-Leaves db settled alone cal codec p) ack
            (Acks-found settled d.tag ("payment.succeeded" == d.routing_key) _ _ msg p
              (paid-Leaves db settled alone cal codec p) ack
              (Acks-found settled d.tag ("order.cancelled" == d.routing_key) _ none msg p
                (cancelled-Leaves db settled alone cal codec p) ack ack))))

  run_envelope-Acks :
      (d : Delivery) (r : Result Envelope)
      → Acks settled d.tag (run_envelope (event_consumer db cal codec) (message_of ch d) r)
  run_envelope-Acks d (err e) = ack-Acks d
  run_envelope-Acks d (ok envelope) =
      Acks-if settled d.tag (envelope.event_id == "") _ _ (ack-Acks d) (
        Acks-bind settled d.tag (EventIds.mark_seen db envelope.event_id)
          (λ first_time.
            if first_time
            then dispatch (event_consumer db cal codec) (message_of ch d) envelope
            else (message_of ch d).ack)
          (mark_seen-Leaves db settled alone envelope.event_id)
          λ first_time.
            Acks-if settled d.tag first_time _ _ (dispatch-Acks d envelope) (ack-Acks d))

  handle_message-Acks : (d : Delivery) → Acks settled d.tag (handle_message (message_of ch d))
  handle_message-Acks d = rw on_message-run_envelope (run_envelope-Acks d (codec.envelope d.body))

  abbrev pub verdict_of : Delivery → W → Settlement
  verdict_of d w = verdict_on d.tag (handle_message (message_of ch d) w).0

  pub deliver_settles :
      (d : Delivery) (w : W)
      → settled (deliver ch handle_message d w) ≡ settled w ++ verdict_of d w ∷ []
  unfolding deliver
  deliver_settles d w =
      split (handle_message (message_of ch d) w).0 (handle_message (message_of ch d) w).1
        ((handle_message-Acks d).at w)
    where
      split :
          (r : Result (Unit {0})) (v : W)
          → AckedBy settled d.tag (settled w) (r, v)
          → let left : W = elim r [ ok _ ↦ v | err _ ↦ (ch.nack d.tag false false v).1 ] in
            settled left ≡ settled w ++ verdict_on d.tag r ∷ []
      split (ok _) v same = same
      split (err _) v same =
          records.nacks d.tag false v ∙ ap (λ before. before ++ nacked d.tag false ∷ []) same

  -- How the deliveries of a loop end, one after another.
  abbrev pub verdicts_of : List Delivery → W → List Settlement
  verdicts_of [] w = []
  verdicts_of (d ∷ ds) w = verdict_of d w ∷ verdicts_of ds (deliver ch handle_message d w)

  -- If the broker records each call and takes every acknowledgement, and the database leaves its
  -- record alone, the loop settles each delivery once, and in the order in which they arrive: it
  -- acknowledges those that are handled without an error, and rejects the others without putting
  -- them back.
  pub consume_loop_settles :
      (ds : List Delivery) (w : W)
      → (settled (consume_loop ch handle_message ds w) ≡ settled w ++ verdicts_of ds w)
        × (map tag_of (verdicts_of ds w) ≡ map (λ d. d.tag) ds)
  unfolding consume_loop
  consume_loop_settles [] w = (sym (append-nil (settled w)), refl)
  consume_loop_settles (d ∷ ds) w =
      let w' = deliver ch handle_message d w in
      let (rest, tags) = consume_loop_settles ds w' in
      (
        rest
            ∙ ap (λ before. before ++ verdicts_of ds w') (deliver_settles d w)
            ∙ append_assoc (settled w) (verdict_of d w ∷ []) (verdicts_of ds w'),
        rw (tag_of-verdict_on d.tag (handle_message (message_of ch d) w).0)
            (ap (λ ts. d.tag ∷ ts) tags),
      )

-- ===== src/EventHandlers/Pipeline.antt =====
-- The whole path of an event, from the broker's message to the counters: consumer.go over
-- event_ids_repo.go, handlers.go and analytics_service.go, put together as in lib/boot/boot.go.
use food_delivery_analytics.Prelude.{
  String, ◌≡◌, refl, ap, ◌∙◌, Bool, true, false, Bool-cases, inl, inr, ◌==◌, if◌then◌else◌,
}
use food_delivery_analytics.Effect.{Action, Result, ok, err, ◌>>=◌, bind-eq-ok}
use food_delivery_analytics.Mongo.Document.{Time}
use food_delivery_analytics.Mongo.Driver.{Driver, WriteLaws, UniqueIndex}
use food_delivery_analytics.Analytics.Enums.{collection_event_ids}
use food_delivery_analytics.Repository.Book.{book, book_same, book_kept}
use food_delivery_analytics.Repository.EventIds
use food_delivery_analytics.Repository.EventIds.Effects.{
  seen, mark_seen_first, mark_seen_again, mark_seen_frame,
}
use food_delivery_analytics.Service.Calendar.{Calendar}
use food_delivery_analytics.CoreEvents.Codec.{Codec, Envelope}
use food_delivery_analytics.CoreEvents.Consumer.{Message, Consumer, dispatch, on_message}
use food_delivery_analytics.EventHandlers.Dispatch.{
  event_consumer, event_step, message_step, AckKeeps, dispatch-RefinesAt,
}

-- `on_message` by what the envelope decodes to.
abbrev pub run_envelope :
    {W : Type 0} → Consumer W → Message W → Result Envelope → Action W (Unit {0})
run_envelope c msg (err _) = msg.ack
run_envelope c msg (ok envelope) =
    if envelope.event_id == ""
    then msg.ack
    else (c.deduper.mark_seen envelope.event_id >>= λ first_time.
        if first_time then dispatch c msg envelope else msg.ack)

pub on_message-run_envelope :
    {W : Type 0} (codec : Codec) (c : Consumer W) (msg : Message W)
    → on_message codec c msg ≡ run_envelope c msg (codec.envelope msg.body)
unfolding on_message
on_message-run_envelope codec c msg = split (codec.envelope msg.body)
  where
    split :
        (r : Result Envelope)
        → (elim r [
          | err _ ↦ msg.ack
          | ok envelope ↦
              if envelope.event_id == ""
              then msg.ack
              else (c.deduper.mark_seen envelope.event_id >>= λ first_time.
                  if first_time then dispatch c msg envelope else msg.ack)
        ])
          ≡ run_envelope c msg r
    split (err _) = refl
    split (ok envelope) = refl

module _ {W : Type 0} (db : Driver W) (laws : WriteLaws db)
    (index : UniqueIndex db collection_event_ids "event_id") (cal : Calendar) (codec : Codec)
    (msg : Message W) (keeps : AckKeeps db msg) where
  -- The clock once the event id has been marked.
  abbrev pub marked_at : W → String → Time
  marked_at w id = (db.now (EventIds.mark_seen db id w).1).0

  -- After the id has been marked, by the answer.
  marked :
      (envelope : Envelope) (w : W) (first : Bool)
      → (EventIds.mark_seen db envelope.event_id w).0 ≡ ok first
      → let v = (EventIds.mark_seen db envelope.event_id w).1 in
        let rest = if first then dispatch (event_consumer db cal codec) msg envelope else msg.ack in
        (rest v).0 ≡ ok tt
        → book db (rest v).1 ≡ (
            if seen db w envelope.event_id
            then book db w
            else event_step cal codec msg.routing_key envelope.payload
                (marked_at w envelope.event_id)
                (book db w))
  marked envelope w true answer h =
      let v = (EventIds.mark_seen db envelope.event_id w).1 in
      let (fresh, _) = mark_seen_first db laws index envelope.event_id w answer in
      let step =
        event_step cal codec msg.routing_key envelope.payload (marked_at w envelope.event_id) in
      rw fresh (
        (dispatch-RefinesAt db laws cal codec msg envelope keeps).at v h
        ∙ ap step (book_kept db v w (mark_seen_frame db laws index envelope.event_id w)))
  marked envelope w false answer h =
      let v = (EventIds.mark_seen db envelope.event_id w).1 in
      let (stale, _) = mark_seen_again db laws index envelope.event_id w answer in
      rw stale (
        book_same db (msg.ack v).1 v (keeps v)
        ∙ book_kept db v w (mark_seen_frame db laws index envelope.event_id w))

  pub run_envelope_refines :
      (r : Result Envelope) (w : W)
      → (run_envelope (event_consumer db cal codec) msg r w).0 ≡ ok tt
      → book db (run_envelope (event_consumer db cal codec) msg r w).1
        ≡ message_step cal codec (seen db w) (marked_at w) msg.routing_key r (book db w)
  run_envelope_refines (err x) w h = book_same db (msg.ack w).1 w (keeps w)
  run_envelope_refines (ok envelope) w h = elim (Bool-cases (envelope.event_id == "")) [
    | inl missing ↦ rw missing (book_same db (msg.ack w).1 w (keeps w))
    | inr given ↦
        let (first, answer, rest) =
          bind-eq-ok (EventIds.mark_seen db envelope.event_id)
            (λ first_time.
              if first_time then dispatch (event_consumer db cal codec) msg envelope else msg.ack)
            w (rw given at h) in
        rw (given, rest) (marked envelope w first answer (rw (given, rest) at h))
  ]

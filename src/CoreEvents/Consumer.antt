-- ===== src/CoreEvents/Consumer.antt =====
-- lib/coreevents/consumer.go
use food_delivery_analytics.Prelude.{
  String, Bool, Option, none, some, List, [], ◌∷◌, ◌==◌, if◌then◌else◌,
}
use food_delivery_analytics.Effect.{Action, ok, err, ◌>>=◌, ◌>>◌}
use food_delivery_analytics.CoreEvents.Codec.{Envelope, Codec}

-- `messaging.Message`
pub record Message (W : Type 0) : Type 0 where
  pub routing_key : String
  pub body : String
  pub ack : Action W (Unit {0})
  pub nack : Bool → Action W (Unit {0})

pub record EventDeduper (W : Type 0) : Type 0 where
  pub mark_seen : String → Action W Bool

abbrev pub EventHandler : Type 0 → Type 0
EventHandler W = String → Action W (Unit {0})

-- Go's map from event types to handlers.
abbrev pub HandlerMap : Type 0 → Type 0
HandlerMap W = List (String × EventHandler W)

pub record Consumer (W : Type 0) : Type 0 where
  pub deduper : EventDeduper W
  pub handlers : HandlerMap W

module _ {W : Type 0} where
  abbrev pub lookup : String → HandlerMap W → Option (EventHandler W)
  lookup k [] = none
  lookup k ((j, h) ∷ hs) = if j == k then some h else lookup k hs

  abbrev pub insert : String → EventHandler W → HandlerMap W → HandlerMap W
  insert k h [] = (k, h) ∷ []
  insert k h ((j, g) ∷ hs) = if j == k then (k, h) ∷ hs else (j, g) ∷ insert k h hs

  abbrev pub new_consumer : EventDeduper W → Consumer W
  new_consumer deduper = record { deduper = deduper; handlers = [] }

  abbrev pub register : Consumer W → String → EventHandler W → Consumer W
  register c event_type handler = record c { handlers = insert event_type handler c.handlers }

  -- The handlers of an event that is seen for the first time.
  unfoldable pub dispatch : Consumer W → Message W → Envelope → Action W (Unit {0})
  dispatch c msg envelope = elim (lookup msg.routing_key c.handlers) [
    | none ↦ msg.ack
    | some handler ↦ (handler envelope.payload >> msg.ack)
  ]

  -- The function that `Start` hands to the broker.
  unfoldable pub on_message : Codec → Consumer W → Message W → Action W (Unit {0})
  on_message codec c msg = elim (codec.envelope msg.body) [
    | err _ ↦ msg.ack
    | ok envelope ↦
        if envelope.event_id == ""
        then msg.ack
        else (c.deduper.mark_seen envelope.event_id >>= λ first_time.
            if first_time then dispatch c msg envelope else msg.ack)
  ]

-- ===== src/Tests/Settlements.antt =====
-- Deliveries and what a broker records of them, beside a database in memory.
use food_delivery_analytics.Prelude.{◌≡◌, refl, ◌++◌, List, [], ◌∷◌, map}
use food_delivery_analytics.Effect.{Action, ok}
use food_delivery_analytics.Mongo.Memory.{Memory, memory, blank}
use food_delivery_analytics.Mongo.Driver.{Driver}
use food_delivery_analytics.Mongo.Untouched.{Untouched}
use food_delivery_analytics.Messaging.{Channel, Delivery, consume_loop}
use food_delivery_analytics.CoreEvents.Consumer.{on_message}
use food_delivery_analytics.EventHandlers.Dispatch.{event_consumer}
use food_delivery_analytics.EventHandlers.Settled.{
  Settlement, acked, nacked, tag_of, Records, verdicts_of, consume_loop_settles,
}
use food_delivery_analytics.Tests.Fixtures.{calendar, codec, order_delivery, unreadable_delivery}

abbrev World : Type 0
World = Memory × List Settlement

abbrev beside : {A : Type 0} → Action Memory A → Action World A
beside m (memory, settlements) = let (r, memory') = m memory in (r, (memory', settlements))

abbrev recorded_memory : Driver World
recorded_memory = record {
  now = λ w. let (t, m) = memory.now w.0 in (t, (m, w.1));
  update_one = λ c f u upsert. beside (memory.update_one c f u upsert);
  find = λ c f ks. beside (memory.find c f ks);
  decode_int = memory.decode_int;
  decode_text = memory.decode_text;
  decode_moment = memory.decode_moment;
  insert_one = λ c d. beside (memory.insert_one c d);
  documents = λ w. memory.documents w.0;
}

abbrev channel : Channel World
channel = record {
  ack = λ tag multiple w. (ok tt, (w.0, w.1 ++ acked tag ∷ []));
  nack = λ tag multiple requeue w. (ok tt, (w.0, w.1 ++ nacked tag requeue ∷ []));
}

abbrev settled : World → List Settlement
settled w = w.1

records : Records channel settled
records = record { takes_ack = λ tag w. refl; acks = λ tag w. refl; nacks = λ tag requeue w. refl }

alone : Untouched recorded_memory settled
alone = record {
  nows = record { at = λ w. refl };
  updates = λ c f u upsert. record { at = λ w. refl };
  inserts = λ c d. record { at = λ w. refl };
}

abbrev arrived : List Delivery
arrived = order_delivery ∷ unreadable_delivery ∷ []

abbrev verdicts : List Settlement
verdicts =
    verdicts_of recorded_memory calendar codec channel settled records alone arrived (blank, [])

consume_loop_settles_example :
    (settled (
        consume_loop channel
          (on_message codec (event_consumer recorded_memory calendar codec))
          arrived
          (blank, []))
      ≡ [] ++ verdicts)
    × (map tag_of verdicts ≡ 1 ∷ 2 ∷ [])
consume_loop_settles_example =
    consume_loop_settles recorded_memory calendar codec channel settled records alone arrived
      (blank, [])

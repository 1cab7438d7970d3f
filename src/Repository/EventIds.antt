-- ===== src/Repository/EventIds.antt =====
-- app/analytics/repository/event_ids_repo.go
pub mod Effects
use food_delivery_analytics.Prelude.{String, Bool, true, false}
use food_delivery_analytics.Effect.{
  Action, Result, ok, err, duplicate_key, Fault, app_fault, other_fault, ◌>>=◌,
}
use food_delivery_analytics.Mongo.Document.{Time, Document, empty, put, text, moment}
use food_delivery_analytics.Mongo.Driver.{Driver, clock}
use food_delivery_analytics.Analytics.Enums.{collection_event_ids}

abbrev pub event_document : String → Time → Document
event_document event_id t = put "received_at" (moment t) (put "event_id" (text event_id) empty)

-- `mongo.IsDuplicateKeyError(err)` is turned into "not the first time".
abbrev pub first_time : Result (Unit {0}) → Result Bool
first_time (ok _) = ok true
first_time (err duplicate_key) = ok false
first_time (err e) = err e

module _ {W : Type 0} (db : Driver W) where
  unfoldable pub mark_seen : String → Action W Bool
  mark_seen event_id = do
    t ← clock db
    λ w.
        let (r, w') = db.insert_one collection_event_ids (event_document event_id t) w in
        (first_time r, w')

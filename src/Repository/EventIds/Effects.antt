-- ===== src/Repository/EventIds/Effects.antt =====
-- What `MarkSeen` of event_ids_repo.go does to the set of event ids that have been seen.
use food_delivery_analytics.Prelude.{
  String, ◌≡◌, refl, ap, ◌∙◌, List, Bool, true, false, ◌||◌, [], ◌∷◌, arith, inl, inr, ◌==◌,
}
use food_delivery_analytics.Effect.{Result, ok, err, duplicate_key, app_fault, other_fault}
use food_delivery_analytics.Mongo.Document.{Filter, text, equals, any_match, matches, Document}
use food_delivery_analytics.Mongo.Driver.{Driver, WriteLaws, UniqueIndex, Inserted, inserted_at}
use food_delivery_analytics.Mongo.Totals.{any_match-middle}
use food_delivery_analytics.Analytics.Enums.{collection_event_ids}
use food_delivery_analytics.Repository.EventIds.{event_document, first_time, mark_seen}

abbrev pub event_filter : String → Filter
event_filter event_id = ("event_id", equals (text event_id)) ∷ []

-- Whether the collection holds the event id.
unfoldable pub seen : {W : Type 0} → Driver W → W → String → Bool
seen db w event_id = any_match (event_filter event_id) (db.documents w collection_event_ids)

first_time-true : (r : Result (Unit {0})) → first_time r ≡ ok true → r ≡ ok tt
first_time-true (ok _) h = refl
first_time-true (err (app_fault e)) h = cc
first_time-true (err duplicate_key) h = cc
first_time-true (err (other_fault e)) h = cc

first_time-false : (r : Result (Unit {0})) → first_time r ≡ ok false → r ≡ err duplicate_key
first_time-false (ok _) h = cc
first_time-false (err (app_fault e)) h = cc
first_time-false (err duplicate_key) h = refl
first_time-false (err (other_fault e)) h = cc

pub Inserted-any_match :
    (f : Filter) {d : Document} {ds ds' : List Document}
    → Inserted d ds ds'
    → any_match f ds' ≡ (matches f d || any_match f ds)
Inserted-any_match f {d} (inserted_at before after p q) =
    rw (p, q) (any_match-middle f before d after)

module _ {W : Type 0} (db : Driver W) (laws : WriteLaws db) where
  module _ (index : UniqueIndex db collection_event_ids "event_id") (event_id : String)
      (w : W) where
    -- "First time" is answered for an id that was not there, and puts it there.
    pub mark_seen_first :
        (mark_seen db event_id w).0 ≡ ok true
        → (seen db w event_id ≡ false)
          × ((id' : String)
              → seen db (mark_seen db event_id w).1 id' ≡ (event_id == id' || seen db w id'))
    unfolding mark_seen seen
    mark_seen_first h =
        let v = (db.now w).1 in
        let d = event_document event_id (db.now w).0 in
        let (fresh, put_in) =
          index.insert_one_inserts d (text event_id) v refl (first_time-true _ h) in
        let kept = laws.now_documents w collection_event_ids in
        (
          rw kept at fresh,
          λ id'. rw (← kept) (Inserted-any_match (event_filter id') put_in ∙ ground arith),
        )

    -- "Seen before" is answered for an id that is there, and changes nothing.
    pub mark_seen_again :
        (mark_seen db event_id w).0 ≡ ok false
        → (seen db w event_id ≡ true)
          × ((id' : String) → seen db (mark_seen db event_id w).1 id' ≡ seen db w id')
    unfolding mark_seen seen
    mark_seen_again h =
        let v = (db.now w).1 in
        let d = event_document event_id (db.now w).0 in
        let (stale, same) =
          index.insert_one_duplicate d (text event_id) v refl (first_time-false _ h) in
        let kept = laws.now_documents w collection_event_ids in
        (rw kept at stale, λ id'. ap (any_match (event_filter id')) (same ∙ kept))

    pub mark_seen_frame :
        (c : String)
        → (c == collection_event_ids) ≡ false
        → db.documents (mark_seen db event_id w).1 c ≡ db.documents w c
    unfolding mark_seen
    mark_seen_frame c h =
        index.insert_one_frame (event_document event_id (db.now w).0) (db.now w).1 c h
        ∙ laws.now_documents w c

module _ {W : Type 0} (db : Driver W) where
  pub seen_same :
      (v w : W) (id : String)
      → db.documents v collection_event_ids ≡ db.documents w collection_event_ids
      → seen db v id ≡ seen db w id
  unfolding seen
  seen_same v w id e = ap (any_match (event_filter id)) e

module _ {W : Type 0} (db : Driver W) (laws : WriteLaws db)
    (index : UniqueIndex db collection_event_ids "event_id") where
  -- No outcome of `MarkSeen` forgets an id.
  pub mark_seen_monotone :
      (event_id id : String) (w : W)
      → seen db w id ≡ true
      → seen db (mark_seen db event_id w).1 id ≡ true
  unfolding mark_seen seen
  mark_seen_monotone event_id id w h =
      let v = (db.now w).1 in
      let kept = laws.now_documents w collection_event_ids in
      let was : any_match (event_filter id) (db.documents v collection_event_ids) ≡ true =
        ap (any_match (event_filter id)) kept ∙ h in
      elim (index.insert_one_outcome (event_document event_id (db.now w).0) v) [
        | inl same ↦ ap (any_match (event_filter id)) (same ∙ kept) ∙ h
        | inr put_in ↦ Inserted-any_match (event_filter id) put_in ∙ rw was (ground arith)
      ]

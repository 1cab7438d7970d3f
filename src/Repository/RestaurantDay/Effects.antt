-- ===== src/Repository/RestaurantDay/Effects.antt =====
-- What the writes of restaurant_day_repo.go do to the view of every restaurant and day.
use food_delivery_analytics.Prelude.{
  String, ◌≡◌, refl, Bool, true, false, ◌&&◌, some, arith, ◌==◌, eq_iff, if◌then◌else◌,
}
use food_delivery_analytics.Prelude.Int.{ℤ, beq_ℤ, beq_ℤ_iff, int_laws}
use food_delivery_analytics.Effect.{Action, ok}
use food_delivery_analytics.Mongo.Document.{
  Time, Document, Filter, Update, int, text, matches, apply_update, upsert_document, holds-equals,
}
use food_delivery_analytics.Mongo.Driver.{Driver, WriteLaws}
use food_delivery_analytics.Mongo.Totals.{Sees}
use food_delivery_analytics.Mongo.Timed.{timed_update, timed_update_frame, KeepsOthers}
use food_delivery_analytics.Repository.DayTotals.{
  DayTotals, DayChange, DayMoves, day_totals, change_day, placed_change, delivered_change,
  paid_change, cancelled_change, timed_update-day_totals,
}
use food_delivery_analytics.Analytics.Enums.{collection_agg_restaurant_day}
use food_delivery_analytics.Repository.RestaurantDay.{
  key_filter, upsert_update, incr_delivery_update, incr_revenue_update, decr_order_update, upsert,
  incr_delivery, incr_revenue, decr_order,
}

-- An update that leaves the fields of the key alone.
abbrev KeepsKey : Update → Document → Type 0
KeepsKey u doc =
    (apply_update u doc "restaurant_id" ≡ doc "restaurant_id")
    × (apply_update u doc "date" ≡ doc "date")

abbrev pub same_key : ℤ → String → ℤ → String → Bool
same_key r d r' d' = beq_ℤ r r' && d == d'

key_fields :
    (r : ℤ) (d : String) (doc : Document)
    → matches (key_filter r d) doc ≡ true
    → (doc "restaurant_id" ≡ some (int r)) × (doc "date" ≡ some (text d))
key_fields r d doc h =
    ground (arith, holds-equals (int r) (doc "restaurant_id"), holds-equals (text d) (doc "date"))

module _ (r : ℤ) (d : String) (r' : ℤ) (d' : String) where
  key_filter_of_same :
      same_key r d r' d' ≡ true → ◌≡◌ {A = Filter} (key_filter r d) (key_filter r' d')
  key_filter_of_same h = ground (arith, beq_ℤ_iff r r', eq_iff d d')

  key_filter-Sees :
      (u : Update)
      → ((doc : Document) → KeepsKey u doc)
      → matches (key_filter r' d') (upsert_document (key_filter r d) u) ≡ same_key r d r' d'
      → Sees (key_filter r d) (key_filter r' d') u (same_key r d r' d')
  key_filter-Sees u keeps new = record {
    found_seen = λ doc h. let (p, q) = key_fields r d doc h in rw (p, q) (ground arith);
    kept_seen = λ doc h.
        let (p, q) = key_fields r d doc h in
        let (k, l) = keeps doc in rw (k, l, p, q) (ground arith);
    new_seen = new;
  }

-- The view of one restaurant and day.
unfoldable pub restaurant_totals : {W : Type 0} → Driver W → W → ℤ → String → DayTotals
restaurant_totals db w r d =
    day_totals (key_filter r d) (db.documents w collection_agg_restaurant_day)

module _ {W : Type 0} (db : Driver W) (laws : WriteLaws db) (w : W) (r : ℤ) (d : String) where
  -- `run` moves the view of its own key by the change, and of no other key.
  abbrev pub ChangesDay : Action W (Unit {0}) → Bool → DayChange → Type 0
  ChangesDay run upsert c =
      (run w).0 ≡ ok tt
      → (r' : ℤ) (d' : String)
      → restaurant_totals db (run w).1 r' d' ≡ (
          if same_key r d r' d'
          then change_day upsert c (restaurant_totals db w r' d')
          else restaurant_totals db w r' d')

  write_changes :
      (u : Time → Update) (creates : Bool) (change : DayChange)
      → ((t : Time) (doc : Document) → KeepsKey (u t) doc)
      → ((t : Time) (r' : ℤ) (d' : String)
          → matches (key_filter r' d') (upsert_document (key_filter r d) (u t))
            ≡ same_key r d r' d')
      → ((t : Time) → DayMoves (key_filter r d) (u t) change)
      → ChangesDay
          (timed_update db collection_agg_restaurant_day (key_filter r d) u creates)
          creates
          change
  unfolding restaurant_totals
  write_changes u creates change keeps new moves h r' d' =
      timed_update-day_totals db laws collection_agg_restaurant_day (key_filter r d)
        (key_filter r' d') u (same_key r d r' d') creates change w
        (λ t. key_filter-Sees r d r' d' (u t) (keeps t) (new t r' d')) moves
        (λ s _. key_filter_of_same r d r' d' s) h

  pub upsert_changes :
      (currency : String) (revenue : ℤ)
      → ChangesDay (upsert db r d currency revenue) true (placed_change revenue)
  unfolding upsert
  upsert_changes currency revenue =
      write_changes (upsert_update r d currency revenue) true (placed_change revenue)
        (λ t doc. (refl, refl)) (λ t r' d'. ground arith) (λ t. omega int_laws)

  pub incr_delivery_changes :
      (ms : ℤ) → ChangesDay (incr_delivery db r d ms) false (delivered_change ms)
  unfolding incr_delivery
  incr_delivery_changes ms =
      write_changes (incr_delivery_update ms) false (delivered_change ms) (λ t doc. (refl, refl))
        (λ t r' d'. ground arith) (λ t. omega int_laws)

  pub incr_revenue_changes :
      (amount : ℤ) → ChangesDay (incr_revenue db r d amount) false (paid_change amount)
  unfolding incr_revenue
  incr_revenue_changes amount =
      write_changes (incr_revenue_update amount) false (paid_change amount) (λ t doc. (refl, refl))
        (λ t r' d'. ground arith) (λ t. omega int_laws)

  pub decr_order_changes : ChangesDay (decr_order db r d) false cancelled_change
  unfolding decr_order
  decr_order_changes =
      write_changes decr_order_update false cancelled_change (λ t doc. (refl, refl))
        (λ t r' d'. ground arith) (λ t. omega int_laws)

module _ {W : Type 0} (db : Driver W) (laws : WriteLaws db) (r : ℤ) (d : String) where
  -- The writes leave every other collection as it was.
  pub upsert_frame :
      (currency : String) (revenue : ℤ)
      → KeepsOthers db collection_agg_restaurant_day (upsert db r d currency revenue)
  unfolding upsert
  upsert_frame currency revenue =
      timed_update_frame db laws collection_agg_restaurant_day (key_filter r d)
        (upsert_update r d currency revenue) true

  pub incr_delivery_frame :
      (ms : ℤ) → KeepsOthers db collection_agg_restaurant_day (incr_delivery db r d ms)
  unfolding incr_delivery
  incr_delivery_frame ms =
      timed_update_frame db laws collection_agg_restaurant_day (key_filter r d)
        (incr_delivery_update ms) false

  pub incr_revenue_frame :
      (amount : ℤ) → KeepsOthers db collection_agg_restaurant_day (incr_revenue db r d amount)
  unfolding incr_revenue
  incr_revenue_frame amount =
      timed_update_frame db laws collection_agg_restaurant_day (key_filter r d)
        (incr_revenue_update amount) false

  pub decr_order_frame : KeepsOthers db collection_agg_restaurant_day (decr_order db r d)
  unfolding decr_order
  decr_order_frame =
      timed_update_frame db laws collection_agg_restaurant_day (key_filter r d) decr_order_update
        false

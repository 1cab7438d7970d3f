-- ===== src/Repository/ProductDay/Effects.antt =====
-- What `Upsert` of product_day_repo.go does to the view of every product, restaurant and day.
use food_delivery_analytics.Prelude.{
  String, ◌≡◌, Bool, true, ◌&&◌, some, arith, ◌==◌, if◌then◌else◌,
}
use food_delivery_analytics.Prelude.Int.{ℤ, pos, ◌+ℤ◌, beq_ℤ, +ℤ_zero, int_laws}
use food_delivery_analytics.Effect.{ok}
use food_delivery_analytics.Mongo.Document.{Time, Document, int, text, matches, holds-equals}
use food_delivery_analytics.Mongo.Driver.{Driver, WriteLaws}
use food_delivery_analytics.Mongo.Totals.{total, Sees, Updated-total}
use food_delivery_analytics.Mongo.Timed.{timed_update-Updated, timed_update_frame, KeepsOthers}
use food_delivery_analytics.Analytics.Enums.{collection_agg_product_day}
use food_delivery_analytics.Repository.ProductDay.{key_filter, upsert_update, upsert}

pub record ProductTotals : Type 0 where
  pub orders : ℤ
  pub quantity : ℤ

abbrev pub add_sale : ℤ → ProductTotals → ProductTotals
add_sale n t = record { orders = t.orders +ℤ pos 1; quantity = t.quantity +ℤ n }

-- The view of one product, restaurant and day.
unfoldable pub product_totals : {W : Type 0} → Driver W → W → ℤ → ℤ → String → ProductTotals
product_totals db w p r d =
    let ds = db.documents w collection_agg_product_day in
    record {
      orders = total (key_filter p r d) "orders_count" ds;
      quantity = total (key_filter p r d) "quantity_sold" ds;
    }

abbrev pub same_key : ℤ → ℤ → String → ℤ → ℤ → String → Bool
same_key p r d p' r' d' = beq_ℤ p p' && (beq_ℤ r r' && d == d')

key_fields :
    (p r : ℤ) (d : String) (doc : Document)
    → matches (key_filter p r d) doc ≡ true
    → (doc "product_id" ≡ some (int p))
      × (doc "restaurant_id" ≡ some (int r))
      × (doc "date" ≡ some (text d))
key_fields p r d doc h = ground (
  arith,
  holds-equals (int p) (doc "product_id"),
  holds-equals (int r) (doc "restaurant_id"),
  holds-equals (text d) (doc "date"),
)

module _ (p r : ℤ) (d : String) (p' r' : ℤ) (d' : String) (n : ℤ) (t : Time) where
  upsert-Sees :
      Sees
        (key_filter p r d)
        (key_filter p' r' d')
        (upsert_update p r d n t)
        (same_key p r d p' r' d')
  upsert-Sees = record {
    found_seen = λ doc h. let (i, j, k) = key_fields p r d doc h in rw (i, j, k) (ground arith);
    kept_seen = λ doc h. let (i, j, k) = key_fields p r d doc h in rw (i, j, k) (ground arith);
    new_seen = ground arith;
  }

module _ {W : Type 0} (db : Driver W) (laws : WriteLaws db) (w : W) (p r : ℤ) (d : String) where
  -- A sale moves the view of its own key by one order and the quantity, and of no other key.
  pub upsert_changes :
      (n : ℤ)
      → (upsert db p r d n w).0 ≡ ok tt
      → (p' r' : ℤ) (d' : String)
      → product_totals db (upsert db p r d n w).1 p' r' d' ≡ (
          if same_key p r d p' r' d'
          then add_sale n (product_totals db w p' r' d')
          else product_totals db w p' r' d')
  unfolding upsert product_totals
  upsert_changes n h p' r' d' =
      let f = key_filter p r d in
      let g = key_filter p' r' d' in
      let u = upsert_update p r d n in
      let seen = same_key p r d p' r' d' in
      let ds = db.documents w collection_agg_product_day in
      let written = timed_update-Updated db laws collection_agg_product_day f u true w h in
      let sees = upsert-Sees p r d p' r' d' n (db.now w).0 in
      ground (
        arith,
        Updated-total f g (u (db.now w).0) seen true ds _ sees "orders_count" (pos 1)
            (omega int_laws) written,
        Updated-total f g (u (db.now w).0) seen true ds _ sees "quantity_sold" n (omega int_laws)
            written,
        +ℤ_zero (total g "orders_count" ds),
        +ℤ_zero (total g "quantity_sold" ds),
      )

  pub upsert_frame : (n : ℤ) → KeepsOthers db collection_agg_product_day (upsert db p r d n)
  unfolding upsert
  upsert_frame n =
      timed_update_frame db laws collection_agg_product_day (key_filter p r d)
        (upsert_update p r d n) true

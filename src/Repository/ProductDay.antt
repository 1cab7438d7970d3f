-- ===== src/Repository/ProductDay.antt =====
-- app/analytics/repository/product_day_repo.go
pub mod Effects
use food_delivery_analytics.Prelude.{String, List, [], ◌∷◌, true}
use food_delivery_analytics.Prelude.Int.{ℤ, pos}
use food_delivery_analytics.Effect.{Action, pure, lift, ◌>>=◌}
use food_delivery_analytics.Mongo.Document.{
  Time, Document, Filter, Update, int, text, moment, equals, between,
}
use food_delivery_analytics.Mongo.Driver.{Driver, clock, decode_all}
use food_delivery_analytics.Analytics.Entity.{ProductDay}
use food_delivery_analytics.Analytics.Enums.{collection_agg_product_day}

abbrev pub key_filter : ℤ → ℤ → String → Filter
key_filter product_id restaurant_id date =
    ("product_id", equals (int product_id))
    ∷ ("restaurant_id", equals (int restaurant_id))
    ∷ ("date", equals (text date))
    ∷ []

abbrev pub upsert_update : ℤ → ℤ → String → ℤ → Time → Update
upsert_update product_id restaurant_id date quantity t = record {
  inc = ("orders_count", pos 1) ∷ ("quantity_sold", quantity) ∷ [];
  set = ("updated_at", moment t) ∷ [];
  set_on_insert =
      ("product_id", int product_id)
      ∷ ("restaurant_id", int restaurant_id)
      ∷ ("date", text date)
      ∷ [];
}

abbrev pub range_filter : ℤ → String → String → Filter
range_filter restaurant_id from_date to_date =
    ("restaurant_id", equals (int restaurant_id)) ∷ ("date", between from_date to_date) ∷ []

module _ {W : Type 0} (db : Driver W) where
  unfoldable pub upsert : ℤ → ℤ → String → ℤ → Action W (Unit {0})
  upsert product_id restaurant_id date quantity = do
    t ← clock db
    db.update_one collection_agg_product_day (key_filter product_id restaurant_id date)
        (upsert_update product_id restaurant_id date quantity t) true

  -- the `bson` tags of `entity.ProductDay`
  unfoldable pub decode_row : Document → Action W ProductDay
  decode_row d = do
    product_id ← lift (db.decode_int (d "product_id"))
    restaurant_id ← lift (db.decode_int (d "restaurant_id"))
    date ← lift (db.decode_text (d "date"))
    orders_count ← lift (db.decode_int (d "orders_count"))
    quantity_sold ← lift (db.decode_int (d "quantity_sold"))
    updated_at ← lift (db.decode_moment (d "updated_at"))
    pure (record {
      product_id = product_id;
      restaurant_id = restaurant_id;
      date = date;
      orders_count = orders_count;
      quantity_sold = quantity_sold;
      updated_at = updated_at;
    })

  unfoldable pub find_by_restaurant_and_range : ℤ → String → String → Action W (List ProductDay)
  find_by_restaurant_and_range restaurant_id from_date to_date = do
    found ←
        db.find collection_agg_product_day (range_filter restaurant_id from_date to_date)
          ("date" ∷ "product_id" ∷ [])
    decode_all decode_row found

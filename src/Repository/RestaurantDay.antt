-- ===== src/Repository/RestaurantDay.antt =====
-- app/analytics/repository/restaurant_day_repo.go
pub mod Effects
use food_delivery_analytics.Prelude.{String, List, [], ◌∷◌, true, false}
use food_delivery_analytics.Prelude.Int.{ℤ, pos, negsuc}
use food_delivery_analytics.Effect.{Action, pure, lift, ◌>>=◌}
use food_delivery_analytics.Mongo.Document.{
  Time, Document, Filter, Update, int, text, moment, equals, between,
}
use food_delivery_analytics.Mongo.Driver.{Driver, clock, decode_all}
use food_delivery_analytics.Analytics.Entity.{RestaurantDay}
use food_delivery_analytics.Analytics.Enums.{collection_agg_restaurant_day}

-- The filter of the writes: one restaurant, one day.
abbrev pub key_filter : ℤ → String → Filter
key_filter restaurant_id date =
    ("restaurant_id", equals (int restaurant_id)) ∷ ("date", equals (text date)) ∷ []

abbrev pub upsert_update : ℤ → String → String → ℤ → Time → Update
upsert_update restaurant_id date currency revenue t = record {
  inc = ("orders_count", pos 1) ∷ ("revenue_sum", revenue) ∷ [];
  set = ("currency", text currency) ∷ ("updated_at", moment t) ∷ [];
  set_on_insert =
      ("restaurant_id", int restaurant_id)
      ∷ ("date", text date)
      ∷ ("delivery_ms_sum", int (pos 0))
      ∷ ("delivery_ms_count", int (pos 0))
      ∷ [];
}

abbrev pub incr_delivery_update : ℤ → Time → Update
incr_delivery_update delivery_ms t = record {
  inc = ("delivery_ms_sum", delivery_ms) ∷ ("delivery_ms_count", pos 1) ∷ [];
  set = ("updated_at", moment t) ∷ [];
  set_on_insert = [];
}

abbrev pub incr_revenue_update : ℤ → Time → Update
incr_revenue_update amount t = record {
  inc = ("revenue_sum", amount) ∷ [];
  set = ("updated_at", moment t) ∷ [];
  set_on_insert = [];
}

abbrev pub decr_order_update : Time → Update
decr_order_update t = record {
  inc = ("orders_count", negsuc 0) ∷ [];
  set = ("updated_at", moment t) ∷ [];
  set_on_insert = [];
}

abbrev pub range_filter : ℤ → String → String → Filter
range_filter restaurant_id from_date to_date =
    ("restaurant_id", equals (int restaurant_id)) ∷ ("date", between from_date to_date) ∷ []

module _ {W : Type 0} (db : Driver W) where
  unfoldable pub upsert : ℤ → String → String → ℤ → Action W (Unit {0})
  upsert restaurant_id date currency revenue = do
    t ← clock db
    db.update_one collection_agg_restaurant_day (key_filter restaurant_id date)
        (upsert_update restaurant_id date currency revenue t) true

  unfoldable pub incr_delivery : ℤ → String → ℤ → Action W (Unit {0})
  incr_delivery restaurant_id date delivery_ms = do
    t ← clock db
    db.update_one collection_agg_restaurant_day (key_filter restaurant_id date)
        (incr_delivery_update delivery_ms t) false

  unfoldable pub incr_revenue : ℤ → String → ℤ → Action W (Unit {0})
  incr_revenue restaurant_id date amount = do
    t ← clock db
    db.update_one collection_agg_restaurant_day (key_filter restaurant_id date)
        (incr_revenue_update amount t) false

  unfoldable pub decr_order : ℤ → String → Action W (Unit {0})
  decr_order restaurant_id date = do
    t ← clock db
    db.update_one collection_agg_restaurant_day (key_filter restaurant_id date)
        (decr_order_update t) false

  -- the `bson` tags of `entity.RestaurantDay`
  unfoldable pub decode_row : Document → Action W RestaurantDay
  decode_row d = do
    restaurant_id ← lift (db.decode_int (d "restaurant_id"))
    date ← lift (db.decode_text (d "date"))
    currency ← lift (db.decode_text (d "currency"))
    orders_count ← lift (db.decode_int (d "orders_count"))
    revenue_sum ← lift (db.decode_int (d "revenue_sum"))
    delivery_ms_sum ← lift (db.decode_int (d "delivery_ms_sum"))
    delivery_ms_count ← lift (db.decode_int (d "delivery_ms_count"))
    updated_at ← lift (db.decode_moment (d "updated_at"))
    pure (record {
      restaurant_id = restaurant_id;
      date = date;
      currency = currency;
      orders_count = orders_count;
      revenue_sum = revenue_sum;
      delivery_ms_sum = delivery_ms_sum;
      delivery_ms_count = delivery_ms_count;
      updated_at = updated_at;
    })

  unfoldable pub find_by_restaurant_and_range : ℤ → String → String → Action W (List RestaurantDay)
  find_by_restaurant_and_range restaurant_id from_date to_date = do
    found ←
        db.find collection_agg_restaurant_day (range_filter restaurant_id from_date to_date)
          ("date" ∷ [])
    decode_all decode_row found

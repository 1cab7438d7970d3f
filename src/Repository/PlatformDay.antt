-- ===== src/Repository/PlatformDay.antt =====
-- app/analytics/repository/platform_day_repo.go
pub mod Effects
use food_delivery_analytics.Prelude.{String, List, [], ◌∷◌, true, false}
use food_delivery_analytics.Prelude.Int.{ℤ, pos, negsuc}
use food_delivery_analytics.Effect.{Action, pure, lift, ◌>>=◌}
use food_delivery_analytics.Mongo.Document.{
  Time, Document, Filter, Update, int, text, moment, equals, between,
}
use food_delivery_analytics.Mongo.Driver.{Driver, clock, decode_all}
use food_delivery_analytics.Analytics.Entity.{PlatformDay}
use food_delivery_analytics.Analytics.Enums.{collection_agg_platform_day}

-- The filter of `Upsert`: one day, one currency.
abbrev pub key_filter : String → String → Filter
key_filter date currency = ("date", equals (text date)) ∷ ("currency", equals (text currency)) ∷ []

-- The filter of `IncrRevenue` and `DecrOrder`: one day, whatever the currency.
abbrev pub date_filter : String → Filter
date_filter date = ("date", equals (text date)) ∷ []

abbrev pub upsert_update : String → String → ℤ → Time → Update
upsert_update date currency revenue t = record {
  inc = ("orders_count", pos 1) ∷ ("revenue_sum", revenue) ∷ [];
  set = ("updated_at", moment t) ∷ [];
  set_on_insert =
      ("date", text date)
      ∷ ("currency", text currency)
      ∷ ("delivery_ms_sum", int (pos 0))
      ∷ ("delivery_ms_count", int (pos 0))
      ∷ [];
}

abbrev pub incr_revenue_update : ℤ → Time → Update
incr_revenue_update amount t = record {
  inc = ("revenue_sum", amount) ∷ [];
  set = ("updated_at", moment t) ∷ [];
  set_on_insert = [];
}

abbrev pub decr_order_update : Time → Update
decr_order_update t = record {
  inc = ("orders_count", negsuc 0) ∷ [];
  set = ("updated_at", moment t) ∷ [];
  set_on_insert = [];
}

abbrev pub range_filter : String → String → Filter
range_filter from_date to_date = ("date", between from_date to_date) ∷ []

module _ {W : Type 0} (db : Driver W) where
  unfoldable pub upsert : String → String → ℤ → Action W (Unit {0})
  upsert date currency revenue = do
    t ← clock db
    db.update_one collection_agg_platform_day (key_filter date currency)
        (upsert_update date currency revenue t) true

  unfoldable pub incr_revenue : String → ℤ → Action W (Unit {0})
  incr_revenue date amount = do
    t ← clock db
    db.update_one collection_agg_platform_day (date_filter date) (incr_revenue_update amount t)
        false

  unfoldable pub decr_order : String → Action W (Unit {0})
  decr_order date = do
    t ← clock db
    db.update_one collection_agg_platform_day (date_filter date) (decr_order_update t) false

  -- the `bson` tags of `entity.PlatformDay`
  unfoldable pub decode_row : Document → Action W PlatformDay
  decode_row d = do
    date ← lift (db.decode_text (d "date"))
    currency ← lift (db.decode_text (d "currency"))
    orders_count ← lift (db.decode_int (d "orders_count"))
    revenue_sum ← lift (db.decode_int (d "revenue_sum"))
    delivery_ms_sum ← lift (db.decode_int (d "delivery_ms_sum"))
    delivery_ms_count ← lift (db.decode_int (d "delivery_ms_count"))
    updated_at ← lift (db.decode_moment (d "updated_at"))
    pure (record {
      date = date;
      currency = currency;
      orders_count = orders_count;
      revenue_sum = revenue_sum;
      delivery_ms_sum = delivery_ms_sum;
      delivery_ms_count = delivery_ms_count;
      updated_at = updated_at;
    })

  unfoldable pub find_by_range : String → String → Action W (List PlatformDay)
  find_by_range from_date to_date = do
    found ← db.find collection_agg_platform_day (range_filter from_date to_date) ("date" ∷ [])
    decode_all decode_row found

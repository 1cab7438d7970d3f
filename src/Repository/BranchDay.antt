-- ===== src/Repository/BranchDay.antt =====
-- app/analytics/repository/branch_day_repo.go
pub mod Effects
use food_delivery_analytics.Prelude.{String, List, [], ◌∷◌, true, false}
use food_delivery_analytics.Prelude.Int.{ℤ, pos, negsuc}
use food_delivery_analytics.Effect.{Action, pure, lift, ◌>>=◌}
use food_delivery_analytics.Mongo.Document.{
  Time, Document, Filter, Update, int, text, moment, equals, between,
}
use food_delivery_analytics.Mongo.Driver.{Driver, clock, decode_all}
use food_delivery_analytics.Analytics.Entity.{BranchDay}
use food_delivery_analytics.Analytics.Enums.{collection_agg_branch_day}

-- The filter of the writes: one branch, one day.
abbrev pub key_filter : ℤ → String → Filter
key_filter branch_id date =
    ("branch_id", equals (int branch_id)) ∷ ("date", equals (text date)) ∷ []

abbrev pub upsert_update : ℤ → String → String → ℤ → Time → Update
upsert_update branch_id date currency revenue t = record {
  inc = ("orders_count", pos 1) ∷ ("revenue_sum", revenue) ∷ [];
  set = ("currency", text currency) ∷ ("updated_at", moment t) ∷ [];
  set_on_insert =
      ("branch_id", int branch_id)
      ∷ ("date", text date)
      ∷ ("delivery_ms_sum", int (pos 0))
      ∷ ("delivery_ms_count", int (pos 0))
      ∷ [];
}

abbrev pub incr_delivery_update : ℤ → Time → Update
incr_delivery_update delivery_ms t = record {
  inc = ("delivery_ms_sum", delivery_ms) ∷ ("delivery_ms_count", pos 1) ∷ [];
  set = ("updated_at", moment t) ∷ [];
  set_on_insert = [];
}

abbrev pub incr_revenue_update : ℤ → Time → Update
incr_revenue_update amount t = record {
  inc = ("revenue_sum", amount) ∷ [];
  set = ("updated_at", moment t) ∷ [];
  set_on_insert = [];
}

abbrev pub decr_order_update : Time → Update
decr_order_update t = record {
  inc = ("orders_count", negsuc 0) ∷ [];
  set = ("updated_at", moment t) ∷ [];
  set_on_insert = [];
}

abbrev pub range_filter : ℤ → String → String → Filter
range_filter branch_id from_date to_date =
    ("branch_id", equals (int branch_id)) ∷ ("date", between from_date to_date) ∷ []

module _ {W : Type 0} (db : Driver W) where
  unfoldable pub upsert : ℤ → String → String → ℤ → Action W (Unit {0})
  upsert branch_id date currency revenue = do
    t ← clock db
    db.update_one collection_agg_branch_day (key_filter branch_id date)
        (upsert_update branch_id date currency revenue t) true

  unfoldable pub incr_delivery : ℤ → String → ℤ → Action W (Unit {0})
  incr_delivery branch_id date delivery_ms = do
    t ← clock db
    db.update_one collection_agg_branch_day (key_filter branch_id date)
        (incr_delivery_update delivery_ms t) false

  unfoldable pub incr_revenue : ℤ → String → ℤ → Action W (Unit {0})
  incr_revenue branch_id date amount = do
    t ← clock db
    db.update_one collection_agg_branch_day (key_filter branch_id date)
        (incr_revenue_update amount t) false

  unfoldable pub decr_order : ℤ → String → Action W (Unit {0})
  decr_order branch_id date = do
    t ← clock db
    db.update_one collection_agg_branch_day (key_filter branch_id date) (decr_order_update t) false

  -- the `bson` tags of `entity.BranchDay`
  unfoldable pub decode_row : Document → Action W BranchDay
  decode_row d = do
    branch_id ← lift (db.decode_int (d "branch_id"))
    date ← lift (db.decode_text (d "date"))
    currency ← lift (db.decode_text (d "currency"))
    orders_count ← lift (db.decode_int (d "orders_count"))
    revenue_sum ← lift (db.decode_int (d "revenue_sum"))
    delivery_ms_sum ← lift (db.decode_int (d "delivery_ms_sum"))
    delivery_ms_count ← lift (db.decode_int (d "delivery_ms_count"))
    updated_at ← lift (db.decode_moment (d "updated_at"))
    pure (record {
      branch_id = branch_id;
      date = date;
      currency = currency;
      orders_count = orders_count;
      revenue_sum = revenue_sum;
      delivery_ms_sum = delivery_ms_sum;
      delivery_ms_count = delivery_ms_count;
      updated_at = updated_at;
    })

  unfoldable pub find_by_branch_and_range : ℤ → String → String → Action W (List BranchDay)
  find_by_branch_and_range branch_id from_date to_date = do
    found ←
        db.find collection_agg_branch_day (range_filter branch_id from_date to_date) ("date" ∷ [])
    decode_all decode_row found

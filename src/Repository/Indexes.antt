-- ===== src/Repository/Indexes.antt =====
-- app/analytics/repository/indexes.go: the indexes that the service asks the database for.
pub mod Unique
pub mod Ensured
use food_delivery_analytics.Prelude.{
  ℕ, ◌*◌, String, Bool, true, false, Option, none, some, List, [], ◌∷◌,
}
use food_delivery_analytics.Prelude.Int.{ℤ, pos}
use food_delivery_analytics.Effect.{Action, ◌>>=◌, ◌>>◌}
use food_delivery_analytics.Analytics.Enums.{
  collection_agg_restaurant_day, collection_agg_branch_day, collection_agg_platform_day,
  collection_agg_product_day, collection_event_ids,
}

-- `mongo.IndexModel` with the options that are set.
pub record IndexModel : Type 0 where
  pub keys : List (String × ℤ)
  pub unique : Bool
  pub expire_after_seconds : Option ℕ
  pub name : String

abbrev pub unique_index : List (String × ℤ) → String → IndexModel
unique_index keys name = record {
  keys = keys;
  unique = true;
  expire_after_seconds = none;
  name = name;
}

abbrev pub plain_index : List (String × ℤ) → String → IndexModel
plain_index keys name = record {
  keys = keys;
  unique = false;
  expire_after_seconds = none;
  name = name;
}

abbrev pub agg_indexes : List IndexModel
agg_indexes =
    unique_index (("restaurant_id", pos 1) ∷ ("date", pos 1) ∷ []) "uq_restaurant_date"
    ∷ plain_index (("date", pos 1) ∷ ("restaurant_id", pos 1) ∷ []) "idx_date_restaurant"
    ∷ []

abbrev pub branch_indexes : List IndexModel
branch_indexes =
    unique_index (("branch_id", pos 1) ∷ ("date", pos 1) ∷ []) "uq_branch_date"
    ∷ plain_index (("date", pos 1) ∷ ("branch_id", pos 1) ∷ []) "idx_date_branch"
    ∷ []

abbrev pub platform_indexes : List IndexModel
platform_indexes =
    unique_index (("date", pos 1) ∷ ("currency", pos 1) ∷ []) "uq_platform_date_currency"
    ∷ plain_index (("date", pos 1) ∷ []) "idx_platform_date"
    ∷ []

abbrev pub product_indexes : List IndexModel
product_indexes =
    unique_index (("product_id", pos 1) ∷ ("restaurant_id", pos 1) ∷ ("date", pos 1) ∷ [])
      "uq_product_restaurant_date"
    ∷ plain_index (("restaurant_id", pos 1) ∷ ("date", pos 1) ∷ []) "idx_restaurant_date"
    ∷ []

abbrev pub ttl_seconds : ℕ
ttl_seconds = 7 * 24 * 60 * 60

abbrev pub event_indexes : List IndexModel
event_indexes =
    unique_index (("event_id", pos 1) ∷ []) "uq_event_id"
    ∷ record {
      keys = ("received_at", pos 1) ∷ [];
      unique = false;
      expire_after_seconds = some ttl_seconds;
      name = "ttl_received_at";
    }
    ∷ []

-- `db.Collection(c).Indexes().CreateMany(ctx, models)` is the parameter.
module _ {W : Type 0} (create_many : String → List IndexModel → Action W (Unit {0})) where
  unfoldable pub ensure_indexes : Action W (Unit {0})
  ensure_indexes = do
    create_many collection_agg_restaurant_day agg_indexes
    create_many collection_agg_branch_day branch_indexes
    create_many collection_agg_platform_day platform_indexes
    create_many collection_agg_product_day product_indexes
    create_many collection_event_ids event_indexes

-- ===== src/Tests/Indexes.antt =====
-- The indexes, on a database that makes them for collections of one document at most.
use food_delivery_analytics.Prelude.{String, ◌≡◌, refl, false, List, [], ◌∷◌, ◌==◌, if◌then◌else◌}
use food_delivery_analytics.Prelude.Int.{pos}
use food_delivery_analytics.Effect.{Action, Result, ok, err, other_fault}
use food_delivery_analytics.Mongo.Document.{Document, int, text, put, empty}
use food_delivery_analytics.Mongo.Memory.{Memory, memory}
use food_delivery_analytics.Repository.Indexes.{IndexModel, ensure_indexes}
use food_delivery_analytics.Repository.Indexes.Unique.{IsUnique}
use food_delivery_analytics.Repository.Indexes.Ensured.{
  IndexLaws, KeysAreUnique, ensure_indexes-KeysAreUnique,
}

abbrev made_for : List Document → Result (Unit {0})
made_for [] = ok tt
made_for (d ∷ []) = ok tt
made_for (d ∷ e ∷ ds) = err (other_fault "duplicate key")

abbrev create_many : String → List IndexModel → Action Memory (Unit {0})
create_many c models m = (made_for (m.stored c), m)

abbrev Installed : Memory → String → IndexModel → Type 0
Installed m c model = IsUnique model.keys (m.stored c)

made_for-IsUnique :
    (model : IndexModel) (ds : List Document) → made_for ds ≡ ok tt → IsUnique model.keys ds
made_for-IsUnique model [] h = tt
made_for-IsUnique model (d ∷ []) h = (tt, tt)
made_for-IsUnique model (d ∷ e ∷ ds) h = cc h

index_laws : IndexLaws memory create_many Installed
index_laws = record {
  installs = λ c models model m h i. made_for-IsUnique model (m.stored c) h;
  stays = λ c c' models model m i. i;
  enforced = λ c model m i u. i;
}

abbrev one_row : Memory
one_row = record {
  time = 7;
  stored = λ c.
      if c == "agg_restaurant_day"
      then put "restaurant_id" (int (pos 7)) (put "date" (text "2024-05-01") empty) ∷ []
      else [];
  down = λ c. false;
}

ensure_indexes-KeysAreUnique_example : KeysAreUnique memory create_many Installed one_row
unfolding ensure_indexes
ensure_indexes-KeysAreUnique_example =
    ensure_indexes-KeysAreUnique memory create_many Installed index_laws one_row one_row refl
      λ c model i. i

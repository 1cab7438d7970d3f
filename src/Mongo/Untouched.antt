-- ===== src/Mongo/Untouched.antt =====
-- Actions that leave something alone that is not the database's, such as a broker's record, if the
-- calls of the database do.
use food_delivery_analytics.Prelude.{String, ◌≡◌, refl, ◌∙◌, Bool, true, false, if◌then◌else◌}
use food_delivery_analytics.Effect.{Action, Result, ok, err, lift, continue, ◌>>=◌}
use food_delivery_analytics.Mongo.Document.{Time, Document, Filter, Update}
use food_delivery_analytics.Mongo.Driver.{Driver, clock}

pub record Leaves {W A L : Type 0} (obs : W → L) (m : Action W A) : Type 0 where
  pub at : (w : W) → obs (m w).1 ≡ obs w

-- The calls of the database leave it alone.
pub record Untouched {W L : Type 0} (db : Driver W) (obs : W → L) : Type 0 where
  pub nows : Leaves obs (clock db)
  pub updates :
      (c : String) (f : Filter) (u : Update) (upsert : Bool)
      → Leaves obs (db.update_one c f u upsert)
  pub inserts : (c : String) (d : Document) → Leaves obs (db.insert_one c d)

module _ {W L : Type 0} (obs : W → L) where
  Leaves-continue :
      {A B : Type 0} (r : Result A) (f : A → Action W B) (w : W)
      → ((a : A) → Leaves obs (f a))
      → obs (continue r f w).1 ≡ obs w
  Leaves-continue (ok a) f w h = (h a).at w
  Leaves-continue (err e) f w h = refl

  pub Leaves-bind :
      {A B : Type 0} (m : Action W A) (f : A → Action W B)
      → Leaves obs m
      → ((a : A) → Leaves obs (f a))
      → Leaves obs (m >>= f)
  Leaves-bind m f hm hf = record { at = λ w. Leaves-continue (m w).0 f (m w).1 hf ∙ hm.at w }

  pub Leaves-lift : {A : Type 0} (r : Result A) → Leaves obs (lift {W = W} r)
  Leaves-lift r = record { at = λ w. refl }

  pub Leaves-if :
      {A : Type 0} (b : Bool) (m n : Action W A)
      → Leaves obs m
      → Leaves obs n
      → Leaves obs (if b then m else n)
  Leaves-if true m n hm hn = hm
  Leaves-if false m n hm hn = hn

module _ {W L : Type 0} (db : Driver W) (obs : W → L) (alone : Untouched db obs) where
  -- Each write of the repositories: the clock, then one update.
  pub timed :
      (c : String) (f : Filter) (u : Time → Update) (upsert : Bool)
      → Leaves obs (clock db >>= λ t. db.update_one c f (u t) upsert)
  timed c f u upsert =
      Leaves-bind obs (clock db) (λ t. db.update_one c f (u t) upsert) alone.nows
        λ t. alone.updates c f (u t) upsert

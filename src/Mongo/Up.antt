-- ===== src/Mongo/Up.antt =====
-- A database that is up: actions that succeed on it and leave it up.
use food_delivery_analytics.Prelude.{String, ◌≡◌, refl, ◌⊎◌, Bool, true, false, if◌then◌else◌}
use food_delivery_analytics.Effect.{Action, Result, ok, err, duplicate_key, pure, continue, ◌>>=◌}
use food_delivery_analytics.Mongo.Document.{Time, Document, Filter, Update}
use food_delivery_analytics.Mongo.Driver.{Driver, clock}
use food_delivery_analytics.Mongo.Timed.{timed_update}

-- In a world that is `Up`, writes succeed, an insert at worst reports a duplicate, and the world
-- stays `Up`.
pub record StaysUp {W : Type 0} (db : Driver W) (Up : W → Type 0) : Type 0 where
  pub now_up : (w : W) → Up w → Up (db.now w).1
  pub update_one_up :
      (c : String) (f : Filter) (u : Update) (upsert : Bool) (w : W)
      → Up w
      → ((db.update_one c f u upsert w).0 ≡ ok tt) × Up (db.update_one c f u upsert w).1
  pub insert_one_up :
      (c : String) (d : Document) (w : W)
      → Up w
      → (((db.insert_one c d w).0 ≡ ok tt) ⊎ ((db.insert_one c d w).0 ≡ err duplicate_key))
        × Up (db.insert_one c d w).1

-- The action returns a value from every world that is up, and leaves it up.
pub record Returns {W A : Type 0} (Up : W → Type 0) (m : Action W A) : Type 0 where
  pub at : (w : W) → Up w → (a : A) × ((m w).0 ≡ ok a) × Up (m w).1

module _ {W : Type 0} (Up : W → Type 0) where
  pub Returns-pure : {A : Type 0} (a : A) → Returns Up (pure {W = W} a)
  Returns-pure a = record { at = λ w up. (a, refl, up) }

  Returns-continue :
      {A B : Type 0} (r : Result A) (f : A → Action W B) (a : A)
      → r ≡ ok a
      → Returns Up (f a)
      → Returns Up (continue r f)
  Returns-continue r f a e h = rw e (record { at = h.at })

  pub Returns-bind :
      {A B : Type 0} (m : Action W A) (f : A → Action W B)
      → Returns Up m
      → ((a : A) → Returns Up (f a))
      → Returns Up (m >>= f)
  Returns-bind m f hm hf = record {
    at = λ w up.
        let (a, e, up') = hm.at w up in (Returns-continue (m w).0 f a e (hf a)).at (m w).1 up';
  }

  pub Returns-if :
      {A : Type 0} (b : Bool) (m n : Action W A)
      → Returns Up m
      → Returns Up n
      → Returns Up (if b then m else n)
  Returns-if true m n hm hn = hm
  Returns-if false m n hm hn = hn

module _ {W : Type 0} (db : Driver W) (Up : W → Type 0) (ups : StaysUp db Up) where
  pub Returns-clock : Returns Up (clock db)
  Returns-clock = record { at = λ w up. (_, refl, ups.now_up w up) }

  pub Returns-timed_update :
      (c : String) (f : Filter) (u : Time → Update) (upsert : Bool)
      → Returns Up (timed_update db c f u upsert)
  Returns-timed_update c f u upsert =
      Returns-bind Up (clock db) (λ t. db.update_one c f (u t) upsert) Returns-clock
        (λ t. record {
          at = λ w up. let (done, up') = ups.update_one_up c f (u t) upsert w up in (tt, done, up');
        })

-- ===== src/Mongo/Keeps.antt =====
-- Actions that leave a collection alone, whether they return or fail; one rule for each way to
-- build an action.
use food_delivery_analytics.Prelude.{String, ◌≡◌, refl, ◌∙◌, Bool, true, false, ◌==◌, if◌then◌else◌}
use food_delivery_analytics.Effect.{Action, Result, ok, err, lift, ◌>>=◌, continue}
use food_delivery_analytics.Mongo.Driver.{Driver, WriteLaws, clock}
use food_delivery_analytics.Mongo.Timed.{KeepsOthers}

pub record Keeps {W A : Type 0} (db : Driver W) (c : String) (m : Action W A) : Type 0 where
  pub at : (w : W) → db.documents (m w).1 c ≡ db.documents w c

module _ {W : Type 0} (db : Driver W) (c : String) where
  pub Keeps-lift : {A : Type 0} (r : Result A) → Keeps db c (lift {W = W} r)
  Keeps-lift r = record { at = λ w. refl }

  pub Keeps-clock : WriteLaws db → Keeps db c (clock db)
  Keeps-clock laws = record { at = λ w. laws.now_documents w c }

  Keeps-continue :
      {A B : Type 0} (r : Result A) (f : A → Action W B)
      → ((a : A) → Keeps db c (f a))
      → Keeps db c (continue r f)
  Keeps-continue (ok a) f h = record { at = λ w. (h a).at w }
  Keeps-continue (err e) f h = record { at = λ w. refl }

  pub Keeps-bind :
      {A B : Type 0} (m : Action W A) (f : A → Action W B)
      → Keeps db c m
      → ((a : A) → Keeps db c (f a))
      → Keeps db c (m >>= f)
  Keeps-bind m f hm hf = record { at = λ w. (Keeps-continue (m w).0 f hf).at (m w).1 ∙ hm.at w }

  pub Keeps-if :
      {A : Type 0} (b : Bool) (m n : Action W A)
      → Keeps db c m
      → Keeps db c n
      → Keeps db c (if b then m else n)
  Keeps-if true m n hm hn = hm
  Keeps-if false m n hm hn = hn

  pub Keeps-other :
      (c' : String) (m : Action W (Unit {0}))
      → KeepsOthers db c' m
      → (c == c') ≡ false
      → Keeps db c m
  Keeps-other c' m h e = record { at = λ w. h w c e }

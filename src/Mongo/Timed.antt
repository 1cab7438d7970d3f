-- ===== src/Mongo/Timed.antt =====
-- Every write of the repositories reads the clock and then updates one document.
use food_delivery_analytics.Prelude.{String, ◌≡◌, Bool, false, ◌==◌}
use food_delivery_analytics.Effect.{Action, ok, ◌>>=◌}
use food_delivery_analytics.Mongo.Document.{Time, Filter, Update}
use food_delivery_analytics.Mongo.Driver.{Driver, clock, WriteLaws, Updated}

abbrev pub timed_update :
    {W : Type 0} → Driver W → String → Filter → (Time → Update) → Bool → Action W (Unit {0})
timed_update db c f u upsert = clock db >>= λ t. db.update_one c f (u t) upsert

-- The action changes no collection but `c`.
abbrev pub KeepsOthers : {W : Type 0} → Driver W → String → Action W (Unit {0}) → Type 0
KeepsOthers {W} db c m =
    (w : W) (c' : String) → (c' == c) ≡ false → db.documents (m w).1 c' ≡ db.documents w c'

module _ {W : Type 0} (db : Driver W) (laws : WriteLaws db) (c : String) (f : Filter) where
  pub timed_update-Updated :
      (u : Time → Update) (upsert : Bool) (w : W)
      → (timed_update db c f u upsert w).0 ≡ ok tt
      → Updated f
          (u (db.now w).0)
          upsert
          (db.documents w c)
          (db.documents (timed_update db c f u upsert w).1 c)
  timed_update-Updated u upsert w h =
      let v = (db.now w).1 in
      let written = laws.update_one_updates c f (u (db.now w).0) upsert v h in
      rw (laws.now_documents w c) at written

  pub timed_update_frame :
      (u : Time → Update) (upsert : Bool) → KeepsOthers db c (timed_update db c f u upsert)
  timed_update_frame u upsert w c' h =
      rw (laws.update_one_frame c c' f (u (db.now w).0) upsert (db.now w).1 h)
        (laws.now_documents w c')

-- ===== src/Repository/BranchDay/Effects.antt =====
-- What the writes of branch_day_repo.go do to the view of every branch and day.
use food_delivery_analytics.Prelude.{
  String, ◌≡◌, refl, Bool, true, false, ◌&&◌, some, arith, ◌==◌, eq_iff, if◌then◌else◌,
}
use food_delivery_analytics.Prelude.Int.{ℤ, beq_ℤ, beq_ℤ_iff, int_laws}
use food_delivery_analytics.Effect.{Action, ok}
use food_delivery_analytics.Mongo.Document.{
  Time, Document, Filter, Update, int, text, matches, apply_update, upsert_document, holds-equals,
}
use food_delivery_analytics.Mongo.Driver.{Driver, WriteLaws}
use food_delivery_analytics.Mongo.Totals.{Sees}
use food_delivery_analytics.Mongo.Timed.{timed_update, timed_update_frame, KeepsOthers}
use food_delivery_analytics.Repository.DayTotals.{
  DayTotals, DayChange, DayMoves, day_totals, change_day, placed_change, delivered_change,
  paid_change, cancelled_change, timed_update-day_totals,
}
use food_delivery_analytics.Analytics.Enums.{collection_agg_branch_day}
use food_delivery_analytics.Repository.BranchDay.{
  key_filter, upsert_update, incr_delivery_update, incr_revenue_update, decr_order_update, upsert,
  incr_delivery, incr_revenue, decr_order,
}

-- An update that leaves the fields of the key alone.
abbrev KeepsKey : Update → Document → Type 0
KeepsKey u doc =
    (apply_update u doc "branch_id" ≡ doc "branch_id") × (apply_update u doc "date" ≡ doc "date")

abbrev pub same_key : ℤ → String → ℤ → String → Bool
same_key b d b' d' = beq_ℤ b b' && d == d'

key_fields :
    (b : ℤ) (d : String) (doc : Document)
    → matches (key_filter b d) doc ≡ true
    → (doc "branch_id" ≡ some (int b)) × (doc "date" ≡ some (text d))
key_fields b d doc h =
    ground (arith, holds-equals (int b) (doc "branch_id"), holds-equals (text d) (doc "date"))

module _ (b : ℤ) (d : String) (b' : ℤ) (d' : String) where
  key_filter_of_same :
      same_key b d b' d' ≡ true → ◌≡◌ {A = Filter} (key_filter b d) (key_filter b' d')
  key_filter_of_same h = ground (arith, beq_ℤ_iff b b', eq_iff d d')

  key_filter-Sees :
      (u : Update)
      → ((doc : Document) → KeepsKey u doc)
      → matches (key_filter b' d') (upsert_document (key_filter b d) u) ≡ same_key b d b' d'
      → Sees (key_filter b d) (key_filter b' d') u (same_key b d b' d')
  key_filter-Sees u keeps new = record {
    found_seen = λ doc h. let (p, q) = key_fields b d doc h in rw (p, q) (ground arith);
    kept_seen = λ doc h.
        let (p, q) = key_fields b d doc h in
        let (k, l) = keeps doc in rw (k, l, p, q) (ground arith);
    new_seen = new;
  }

-- The view of one branch and day.
unfoldable pub branch_totals : {W : Type 0} → Driver W → W → ℤ → String → DayTotals
branch_totals db w b d = day_totals (key_filter b d) (db.documents w collection_agg_branch_day)

module _ {W : Type 0} (db : Driver W) (laws : WriteLaws db) (w : W) (b : ℤ) (d : String) where
  -- `run` moves the view of its own key by the change, and of no other key.
  abbrev pub ChangesDay : Action W (Unit {0}) → Bool → DayChange → Type 0
  ChangesDay run upsert c =
      (run w).0 ≡ ok tt
      → (b' : ℤ) (d' : String)
      → branch_totals db (run w).1 b' d' ≡ (
          if same_key b d b' d'
          then change_day upsert c (branch_totals db w b' d')
          else branch_totals db w b' d')

  write_changes :
      (u : Time → Update) (creates : Bool) (change : DayChange)
      → ((t : Time) (doc : Document) → KeepsKey (u t) doc)
      → ((t : Time) (b' : ℤ) (d' : String)
          → matches (key_filter b' d') (upsert_document (key_filter b d) (u t))
            ≡ same_key b d b' d')
      → ((t : Time) → DayMoves (key_filter b d) (u t) change)
      → ChangesDay
          (timed_update db collection_agg_branch_day (key_filter b d) u creates)
          creates
          change
  unfolding branch_totals
  write_changes u creates change keeps new moves h b' d' =
      timed_update-day_totals db laws collection_agg_branch_day (key_filter b d) (key_filter b' d')
        u (same_key b d b' d') creates change w
        (λ t. key_filter-Sees b d b' d' (u t) (keeps t) (new t b' d')) moves
        (λ s _. key_filter_of_same b d b' d' s) h

  pub upsert_changes :
      (currency : String) (revenue : ℤ)
      → ChangesDay (upsert db b d currency revenue) true (placed_change revenue)
  unfolding upsert
  upsert_changes currency revenue =
      write_changes (upsert_update b d currency revenue) true (placed_change revenue)
        (λ t doc. (refl, refl)) (λ t b' d'. ground arith) (λ t. omega int_laws)

  pub incr_delivery_changes :
      (ms : ℤ) → ChangesDay (incr_delivery db b d ms) false (delivered_change ms)
  unfolding incr_delivery
  incr_delivery_changes ms =
      write_changes (incr_delivery_update ms) false (delivered_change ms) (λ t doc. (refl, refl))
        (λ t b' d'. ground arith) (λ t. omega int_laws)

  pub incr_revenue_changes :
      (amount : ℤ) → ChangesDay (incr_revenue db b d amount) false (paid_change amount)
  unfolding incr_revenue
  incr_revenue_changes amount =
      write_changes (incr_revenue_update amount) false (paid_change amount) (λ t doc. (refl, refl))
        (λ t b' d'. ground arith) (λ t. omega int_laws)

  pub decr_order_changes : ChangesDay (decr_order db b d) false cancelled_change
  unfolding decr_order
  decr_order_changes =
      write_changes decr_order_update false cancelled_change (λ t doc. (refl, refl))
        (λ t b' d'. ground arith) (λ t. omega int_laws)

module _ {W : Type 0} (db : Driver W) (laws : WriteLaws db) (b : ℤ) (d : String) where
  -- The writes leave every other collection as it was.
  pub upsert_frame :
      (currency : String) (revenue : ℤ)
      → KeepsOthers db collection_agg_branch_day (upsert db b d currency revenue)
  unfolding upsert
  upsert_frame currency revenue =
      timed_update_frame db laws collection_agg_branch_day (key_filter b d)
        (upsert_update b d currency revenue) true

  pub incr_delivery_frame :
      (ms : ℤ) → KeepsOthers db collection_agg_branch_day (incr_delivery db b d ms)
  unfolding incr_delivery
  incr_delivery_frame ms =
      timed_update_frame db laws collection_agg_branch_day (key_filter b d)
        (incr_delivery_update ms) false

  pub incr_revenue_frame :
      (amount : ℤ) → KeepsOthers db collection_agg_branch_day (incr_revenue db b d amount)
  unfolding incr_revenue
  incr_revenue_frame amount =
      timed_update_frame db laws collection_agg_branch_day (key_filter b d)
        (incr_revenue_update amount) false

  pub decr_order_frame : KeepsOthers db collection_agg_branch_day (decr_order db b d)
  unfolding decr_order
  decr_order_frame =
      timed_update_frame db laws collection_agg_branch_day (key_filter b d) decr_order_update false

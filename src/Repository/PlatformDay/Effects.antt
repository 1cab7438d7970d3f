-- ===== src/Repository/PlatformDay/Effects.antt =====
-- What the writes of platform_day_repo.go do to the view of every day, over all its currencies.
use food_delivery_analytics.Prelude.{
  String, ◌≡◌, refl, Bool, true, false, some, arith, ◌==◌, eq_iff, if◌then◌else◌,
}
use food_delivery_analytics.Prelude.Int.{ℤ, int_laws}
use food_delivery_analytics.Effect.{Action, ok}
use food_delivery_analytics.Mongo.Document.{
  Time, Document, Filter, Update, text, matches, apply_update, upsert_document, holds-equals,
}
use food_delivery_analytics.Mongo.Driver.{Driver, WriteLaws}
use food_delivery_analytics.Mongo.Totals.{Sees}
use food_delivery_analytics.Mongo.Timed.{timed_update, timed_update_frame, KeepsOthers}
use food_delivery_analytics.Repository.DayTotals.{
  DayTotals, DayChange, DayMoves, day_totals, change_day, placed_change, paid_change,
  cancelled_change, timed_update-day_totals,
}
use food_delivery_analytics.Analytics.Enums.{collection_agg_platform_day}
use food_delivery_analytics.Repository.PlatformDay.{
  key_filter, date_filter, upsert_update, incr_revenue_update, decr_order_update, upsert,
  incr_revenue, decr_order,
}

-- The view of one day.
unfoldable pub platform_totals : {W : Type 0} → Driver W → W → String → DayTotals
platform_totals db w d = day_totals (date_filter d) (db.documents w collection_agg_platform_day)

-- A filter whose documents all belong to one day.
abbrev OfDay : Filter → String → Type 0
OfDay f d = (doc : Document) → matches f doc ≡ true → doc "date" ≡ some (text d)

key_filter-OfDay : (d currency : String) → OfDay (key_filter d currency) d
key_filter-OfDay d currency doc h = ground (arith, holds-equals (text d) (doc "date"))

date_filter-OfDay : (d : String) → OfDay (date_filter d) d
date_filter-OfDay d doc h = ground (arith, holds-equals (text d) (doc "date"))

date_filter-Sees :
    (f : Filter) (d d' : String) (u : Update)
    → OfDay f d
    → ((doc : Document) → apply_update u doc "date" ≡ doc "date")
    → matches (date_filter d') (upsert_document f u) ≡ (d == d')
    → Sees f (date_filter d') u (d == d')
date_filter-Sees f d d' u of_day keeps new = record {
  found_seen = λ doc h. let p = of_day doc h in rw p (ground arith);
  kept_seen = λ doc h. let p = of_day doc h in rw (keeps doc, p) (ground arith);
  new_seen = new;
}

module _ {W : Type 0} (db : Driver W) (laws : WriteLaws db) (w : W) (d : String) where
  -- `run` moves the view of its own day by the change, and of no other day.
  abbrev pub ChangesDay : Action W (Unit {0}) → Bool → DayChange → Type 0
  ChangesDay run creates c =
      (run w).0 ≡ ok tt
      → (d' : String)
      → platform_totals db (run w).1 d' ≡ (
          if d == d'
          then change_day creates c (platform_totals db w d')
          else platform_totals db w d')

  write_changes :
      (f : Filter) (u : Time → Update) (creates : Bool) (change : DayChange)
      → OfDay f d
      → ((t : Time) (doc : Document) → apply_update (u t) doc "date" ≡ doc "date")
      → ((t : Time) (d' : String) → matches (date_filter d') (upsert_document f (u t)) ≡ (d == d'))
      → ((t : Time) → DayMoves f (u t) change)
      → ((d' : String) → d ≡ d' → creates ≡ false → f ≡ date_filter d')
      → ChangesDay (timed_update db collection_agg_platform_day f u creates) creates change
  unfolding platform_totals
  write_changes f u creates change of_day keeps new moves same h d' =
      timed_update-day_totals db laws collection_agg_platform_day f (date_filter d') u (d == d')
        creates change w (λ t. date_filter-Sees f d d' (u t) of_day (keeps t) (new t d')) moves
        (λ s p. same d' ((eq_iff d d').0 s) p) h

  pub upsert_changes :
      (currency : String) (revenue : ℤ)
      → ChangesDay (upsert db d currency revenue) true (placed_change revenue)
  unfolding upsert
  upsert_changes currency revenue =
      write_changes (key_filter d currency) (upsert_update d currency revenue) true
        (placed_change revenue) (key_filter-OfDay d currency) (λ t doc. refl) (λ t d'. ground arith)
        (λ t. omega int_laws) (λ d' e p. cc)

  pub incr_revenue_changes :
      (amount : ℤ) → ChangesDay (incr_revenue db d amount) false (paid_change amount)
  unfolding incr_revenue
  incr_revenue_changes amount =
      write_changes (date_filter d) (incr_revenue_update amount) false (paid_change amount)
        (date_filter-OfDay d) (λ t doc. refl) (λ t d'. ground arith) (λ t. omega int_laws)
        (λ d' e p. cc)

  pub decr_order_changes : ChangesDay (decr_order db d) false cancelled_change
  unfolding decr_order
  decr_order_changes =
      write_changes (date_filter d) decr_order_update false cancelled_change (date_filter-OfDay d)
        (λ t doc. refl) (λ t d'. ground arith) (λ t. omega int_laws) (λ d' e p. cc)

module _ {W : Type 0} (db : Driver W) (laws : WriteLaws db) (d : String) where
  -- The writes leave every other collection as it was.
  pub upsert_frame :
      (currency : String) (revenue : ℤ)
      → KeepsOthers db collection_agg_platform_day (upsert db d currency revenue)
  unfolding upsert
  upsert_frame currency revenue =
      timed_update_frame db laws collection_agg_platform_day (key_filter d currency)
        (upsert_update d currency revenue) true

  pub incr_revenue_frame :
      (amount : ℤ) → KeepsOthers db collection_agg_platform_day (incr_revenue db d amount)
  unfolding incr_revenue
  incr_revenue_frame amount =
      timed_update_frame db laws collection_agg_platform_day (date_filter d)
        (incr_revenue_update amount) false

  pub decr_order_frame : KeepsOthers db collection_agg_platform_day (decr_order db d)
  unfolding decr_order
  decr_order_frame =
      timed_update_frame db laws collection_agg_platform_day (date_filter d) decr_order_update false

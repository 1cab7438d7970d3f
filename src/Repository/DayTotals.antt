-- ===== src/Repository/DayTotals.antt =====
-- The abstract view of a day collection: for each key, whether a row exists and the sums of its
-- counters; and how one update moves the view.
use food_delivery_analytics.Prelude.{
  String, ◌≡◌, ap, Bool, true, false, ◌||◌, List, arith, if◌then◌else◌,
}
use food_delivery_analytics.Prelude.Int.{ℤ, pos, negsuc, ◌+ℤ◌, +ℤ_zero}
use food_delivery_analytics.Effect.{ok}
use food_delivery_analytics.Mongo.Document.{Time, Document, Filter, Update, any_match}
use food_delivery_analytics.Mongo.Driver.{Driver, WriteLaws, Updated}
use food_delivery_analytics.Mongo.Timed.{timed_update, timed_update-Updated}
use food_delivery_analytics.Mongo.Totals.{total, Sees, Moves, Updated-total, Updated-any_match}

pub record DayTotals : Type 0 where
  pub known : Bool
  pub orders : ℤ
  pub revenue : ℤ
  pub delivery_ms : ℤ
  pub deliveries : ℤ

pub record DayChange : Type 0 where
  pub d_orders : ℤ
  pub d_revenue : ℤ
  pub d_delivery_ms : ℤ
  pub d_deliveries : ℤ

-- What each event adds to the row of a day.
abbrev pub placed_change : ℤ → DayChange
placed_change revenue = record {
  d_orders = pos 1;
  d_revenue = revenue;
  d_delivery_ms = pos 0;
  d_deliveries = pos 0;
}

abbrev pub delivered_change : ℤ → DayChange
delivered_change ms = record {
  d_orders = pos 0;
  d_revenue = pos 0;
  d_delivery_ms = ms;
  d_deliveries = pos 1;
}

abbrev pub paid_change : ℤ → DayChange
paid_change amount = record {
  d_orders = pos 0;
  d_revenue = amount;
  d_delivery_ms = pos 0;
  d_deliveries = pos 0;
}

abbrev pub cancelled_change : DayChange
cancelled_change = record {
  d_orders = negsuc 0;
  d_revenue = pos 0;
  d_delivery_ms = pos 0;
  d_deliveries = pos 0;
}

abbrev pub add_change : DayChange → DayTotals → DayTotals
add_change c t = record {
  known = true;
  orders = t.orders +ℤ c.d_orders;
  revenue = t.revenue +ℤ c.d_revenue;
  delivery_ms = t.delivery_ms +ℤ c.d_delivery_ms;
  deliveries = t.deliveries +ℤ c.d_deliveries;
}

-- A plain update changes an existing row only; an upsert makes one.
abbrev pub change_day : Bool → DayChange → DayTotals → DayTotals
change_day upsert c t = if upsert || t.known then add_change c t else t

unfoldable pub day_totals : Filter → List Document → DayTotals
day_totals g ds = record {
  known = any_match g ds;
  orders = total g "orders_count" ds;
  revenue = total g "revenue_sum" ds;
  delivery_ms = total g "delivery_ms_sum" ds;
  deliveries = total g "delivery_ms_count" ds;
}

-- The update moves each counter of the rows that it finds or makes by the change.
abbrev pub DayMoves : Filter → Update → DayChange → Type 0
DayMoves f u c =
    Moves f u "orders_count" c.d_orders
    × Moves f u "revenue_sum" c.d_revenue
    × Moves f u "delivery_ms_sum" c.d_delivery_ms
    × Moves f u "delivery_ms_count" c.d_deliveries

module _ (f g : Filter) (u : Update) (seen upsert : Bool) (ds ds' : List Document) where
  pub Updated-day_totals :
      (c : DayChange)
      → Sees f g u seen
      → DayMoves f u c
      → (seen ≡ true → upsert ≡ false → any_match f ds ≡ any_match g ds)
      → Updated f u upsert ds ds'
      → day_totals g ds' ≡ (if seen then change_day upsert c (day_totals g ds) else day_totals g ds)
  unfolding day_totals
  Updated-day_totals c s m same w = ground (
    arith,
    same,
    Updated-any_match f g u seen upsert ds ds' s w,
    Updated-total f g u seen upsert ds ds' s "orders_count" c.d_orders m.0 w,
    Updated-total f g u seen upsert ds ds' s "revenue_sum" c.d_revenue m.1 w,
    Updated-total f g u seen upsert ds ds' s "delivery_ms_sum" c.d_delivery_ms m.2 w,
    Updated-total f g u seen upsert ds ds' s "delivery_ms_count" c.d_deliveries m.3 w,
    +ℤ_zero (total g "orders_count" ds),
    +ℤ_zero (total g "revenue_sum" ds),
    +ℤ_zero (total g "delivery_ms_sum" ds),
    +ℤ_zero (total g "delivery_ms_count" ds),
  )

-- The same of a whole write. A filter that is in view finds a row exactly if the view has one.
module _ {W : Type 0} (db : Driver W) (laws : WriteLaws db) (c : String) (f g : Filter) where
  pub timed_update-day_totals :
      (u : Time → Update) (seen upsert : Bool) (change : DayChange) (w : W)
      → ((t : Time) → Sees f g (u t) seen)
      → ((t : Time) → DayMoves f (u t) change)
      → (seen ≡ true → upsert ≡ false → f ≡ g)
      → (timed_update db c f u upsert w).0 ≡ ok tt
      → day_totals g (db.documents (timed_update db c f u upsert w).1 c) ≡ (
          if seen
          then change_day upsert change (day_totals g (db.documents w c))
          else day_totals g (db.documents w c))
  timed_update-day_totals u seen upsert change w sees moves same h =
      Updated-day_totals f g (u (db.now w).0) seen upsert (db.documents w c) _ change
        (sees (db.now w).0) (moves (db.now w).0)
        (λ s p. ap (λ k. any_match k (db.documents w c)) (same s p))
        (timed_update-Updated db laws c f u upsert w h)

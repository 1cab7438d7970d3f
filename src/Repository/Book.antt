-- ===== src/Repository/Book.antt =====
-- The abstract state of the aggregates: the counters of each restaurant, branch and product by day,
-- and of each day over the whole platform. Every write of a repository is one step on it.
use food_delivery_analytics.Prelude.{
  String, ◌≡◌, ap, fun_ext, Bool, false, ◌&&◌, ◌==◌, if◌then◌else◌, refl,
}
use food_delivery_analytics.Prelude.Int.{ℤ, beq_ℤ}
use food_delivery_analytics.Effect.{Action, ok}
use food_delivery_analytics.Mongo.Driver.{Driver, WriteLaws}
use food_delivery_analytics.Mongo.Timed.{KeepsOthers}
use food_delivery_analytics.Analytics.Enums.{
  collection_agg_restaurant_day, collection_agg_branch_day, collection_agg_platform_day,
  collection_agg_product_day, collection_event_ids,
}
use food_delivery_analytics.Repository.DayTotals.{DayTotals, DayChange, change_day, day_totals}
use food_delivery_analytics.Repository.RestaurantDay
use food_delivery_analytics.Repository.BranchDay
use food_delivery_analytics.Repository.PlatformDay
use food_delivery_analytics.Repository.ProductDay
use food_delivery_analytics.Repository.RestaurantDay.Effects.{restaurant_totals}
use food_delivery_analytics.Repository.BranchDay.Effects.{branch_totals}
use food_delivery_analytics.Repository.PlatformDay.Effects.{platform_totals}
use food_delivery_analytics.Repository.ProductDay.Effects.{
  product_totals, ProductTotals, add_sale, same_key,
}

pub record Book : Type 0 where
  pub restaurant : ℤ → String → DayTotals
  pub branch : ℤ → String → DayTotals
  pub platform : String → DayTotals
  pub product : ℤ → ℤ → String → ProductTotals

unfoldable pub book : {W : Type 0} → Driver W → W → Book
book db w = record {
  restaurant = restaurant_totals db w;
  branch = branch_totals db w;
  platform = platform_totals db w;
  product = product_totals db w;
}

-- One step on the counters of a restaurant or branch, of a day, and of a product.
abbrev pub on_key :
    ℤ → String → Bool → DayChange → (ℤ → String → DayTotals) → ℤ → String → DayTotals
on_key r d creates c totals r' d' =
    if beq_ℤ r r' && d == d' then change_day creates c (totals r' d') else totals r' d'

abbrev pub on_day : String → Bool → DayChange → (String → DayTotals) → String → DayTotals
on_day d creates c totals d' = if d == d' then change_day creates c (totals d') else totals d'

abbrev pub on_product :
    ℤ → ℤ → String → ℤ → (ℤ → ℤ → String → ProductTotals) → ℤ → ℤ → String → ProductTotals
on_product p r d n totals p' r' d' =
    if same_key p r d p' r' d' then add_sale n (totals p' r' d') else totals p' r' d'

-- The parts of the view depend on their own collection only.
module _ {W : Type 0} (db : Driver W) (v w : W) where
  abbrev Unchanged : String → Type 0
  Unchanged c = db.documents v c ≡ db.documents w c

  restaurant_same :
      Unchanged collection_agg_restaurant_day → restaurant_totals db v ≡ restaurant_totals db w
  unfolding restaurant_totals
  restaurant_same e = fun_ext λ r. fun_ext λ d. ap (day_totals (RestaurantDay.key_filter r d)) e

  branch_same : Unchanged collection_agg_branch_day → branch_totals db v ≡ branch_totals db w
  unfolding branch_totals
  branch_same e = fun_ext λ b. fun_ext λ d. ap (day_totals (BranchDay.key_filter b d)) e

  platform_same :
      Unchanged collection_agg_platform_day → platform_totals db v ≡ platform_totals db w
  unfolding platform_totals
  platform_same e = fun_ext λ d. ap (day_totals (PlatformDay.date_filter d)) e

  product_same : Unchanged collection_agg_product_day → product_totals db v ≡ product_totals db w
  unfolding product_totals
  product_same e = fun_ext λ p. fun_ext λ r. fun_ext λ d. rw e

  -- The collection of event ids plays no part in the view.
  pub book_kept :
      ((c : String) → (c == collection_event_ids) ≡ false → Unchanged c) → book db v ≡ book db w
  unfolding book
  book_kept e = λ i. record {
    restaurant = restaurant_same (e collection_agg_restaurant_day refl) i;
    branch = branch_same (e collection_agg_branch_day refl) i;
    platform = platform_same (e collection_agg_platform_day refl) i;
    product = product_same (e collection_agg_product_day refl) i;
  }

  pub book_same : ((c : String) → Unchanged c) → book db v ≡ book db w
  book_same e = book_kept (λ c h. e c)

module _ {W : Type 0} (db : Driver W) (laws : WriteLaws db) (m : Action W (Unit {0})) (w : W) where
  pub restaurant_step :
      (r : ℤ) (d : String) (creates : Bool) (c : DayChange)
      → KeepsOthers db collection_agg_restaurant_day m
      → RestaurantDay.Effects.ChangesDay db laws w r d m creates c
      → (m w).0 ≡ ok tt
      → book db (m w).1
        ≡ record (book db w) { restaurant = on_key r d creates c (book db w).restaurant }
  unfolding book
  restaurant_step r d creates c keeps changes h = λ i. record {
    restaurant = λ r' d'. changes h r' d' i;
    branch = branch_same db (m w).1 w (keeps w collection_agg_branch_day refl) i;
    platform = platform_same db (m w).1 w (keeps w collection_agg_platform_day refl) i;
    product = product_same db (m w).1 w (keeps w collection_agg_product_day refl) i;
  }

  pub branch_step :
      (b : ℤ) (d : String) (creates : Bool) (c : DayChange)
      → KeepsOthers db collection_agg_branch_day m
      → BranchDay.Effects.ChangesDay db laws w b d m creates c
      → (m w).0 ≡ ok tt
      → book db (m w).1 ≡ record (book db w) { branch = on_key b d creates c (book db w).branch }
  unfolding book
  branch_step b d creates c keeps changes h = λ i. record {
    restaurant = restaurant_same db (m w).1 w (keeps w collection_agg_restaurant_day refl) i;
    branch = λ b' d'. changes h b' d' i;
    platform = platform_same db (m w).1 w (keeps w collection_agg_platform_day refl) i;
    product = product_same db (m w).1 w (keeps w collection_agg_product_day refl) i;
  }

  pub platform_step :
      (d : String) (creates : Bool) (c : DayChange)
      → KeepsOthers db collection_agg_platform_day m
      → PlatformDay.Effects.ChangesDay db laws w d m creates c
      → (m w).0 ≡ ok tt
      → book db (m w).1 ≡ record (book db w) { platform = on_day d creates c (book db w).platform }
  unfolding book
  platform_step d creates c keeps changes h = λ i. record {
    restaurant = restaurant_same db (m w).1 w (keeps w collection_agg_restaurant_day refl) i;
    branch = branch_same db (m w).1 w (keeps w collection_agg_branch_day refl) i;
    platform = λ d'. changes h d' i;
    product = product_same db (m w).1 w (keeps w collection_agg_product_day refl) i;
  }

module _ {W : Type 0} (db : Driver W) (laws : WriteLaws db) (w : W) where
  pub product_step :
      (p r : ℤ) (d : String) (n : ℤ)
      → (ProductDay.upsert db p r d n w).0 ≡ ok tt
      → book db (ProductDay.upsert db p r d n w).1
        ≡ record (book db w) { product = on_product p r d n (book db w).product }
  unfolding book
  product_step p r d n h = λ i.
      let v = (ProductDay.upsert db p r d n w).1 in
      let keeps = ProductDay.Effects.upsert_frame db laws w p r d n w in
      record {
        restaurant = restaurant_same db v w (keeps collection_agg_restaurant_day refl) i;
        branch = branch_same db v w (keeps collection_agg_branch_day refl) i;
        platform = platform_same db v w (keeps collection_agg_platform_day refl) i;
        product = λ p' r' d'. ProductDay.Effects.upsert_changes db laws w p r d n h p' r' d' i;
      }

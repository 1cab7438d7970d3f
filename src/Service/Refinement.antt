-- ===== src/Service/Refinement.antt =====
-- The event handlers of analytics_service.go carry out their specification.
use food_delivery_analytics.Prelude.{
  String, ◌≡◌, refl, ap, fun_ext, ◌∙◌, true, false, List, [], ◌∷◌, arith, Bool-cases, inl, inr,
  Option-cases, ◌==◌,
}
use food_delivery_analytics.Prelude.Int.{ℤ, pos, +ℤ_zero, zero_+ℤ, +ℤ_assoc}
use food_delivery_analytics.Effect.{Action, ok, ◌>>=◌, ◌>>◌, bind-eq-ok}
use food_delivery_analytics.Mongo.Driver.{Driver, WriteLaws}
use food_delivery_analytics.Analytics.Types.{OrderItem}
use food_delivery_analytics.Repository.Book.{Book, book, book_same, on_product, product_step}
use food_delivery_analytics.Repository.ProductDay
use food_delivery_analytics.Repository.ProductDay.Effects.{ProductTotals}
use food_delivery_analytics.Service.Calendar.{Calendar}
use food_delivery_analytics.Service.Events.{is_skipped, parse_event_date, upsert_items}
use food_delivery_analytics.Service.Ledger.{day_of, lines_for, quantity_for, on_order}

on_order-nil :
    (r : ℤ) (d : String) (totals : ℤ → ℤ → String → ProductTotals) → totals ≡ on_order r d [] totals
unfolding lines_for quantity_for
on_order-nil r d totals = fun_ext λ p'. fun_ext λ r'.
    fun_ext
      λ d'. ground (arith, +ℤ_zero (totals p' r' d').orders, +ℤ_zero (totals p' r' d').quantity)

module _ (r : ℤ) (d : String) (item : OrderItem) (items : List OrderItem) where
  on_order_skipped :
      (totals : ℤ → ℤ → String → ProductTotals)
      → is_skipped item ≡ true
      → on_order r d items totals ≡ on_order r d (item ∷ items) totals
  unfolding lines_for quantity_for
  on_order_skipped totals h = fun_ext λ p'. fun_ext λ r'.
      fun_ext λ d'. ground (arith, zero_+ℤ (lines_for p' items), zero_+ℤ (quantity_for p' items))

  on_order_counted :
      (totals : ℤ → ℤ → String → ProductTotals)
      → is_skipped item ≡ false
      → on_order r d items (on_product item.product_id r d item.quantity totals)
        ≡ on_order r d (item ∷ items) totals
  unfolding lines_for quantity_for
  on_order_counted totals h = fun_ext λ p'. fun_ext λ r'. fun_ext λ d'. ground (
    arith,
    zero_+ℤ (lines_for p' items),
    zero_+ℤ (quantity_for p' items),
    +ℤ_assoc (totals p' r' d').orders (pos 1) (lines_for p' items),
    +ℤ_assoc (totals p' r' d').quantity item.quantity (quantity_for p' items),
  )

-- Wherever the action succeeds, the view has moved by the step.
pub record Refines {W : Type 0} (db : Driver W) (m : Action W (Unit {0})) (step : Book → Book)
    : Type 0 where
  pub at : (w : W) → (m w).0 ≡ ok tt → book db (m w).1 ≡ step (book db w)

module _ {W : Type 0} (db : Driver W) where
  pub Refines-seq :
      (m k : Action W (Unit {0})) (f g : Book → Book)
      → Refines db m f
      → Refines db k g
      → Refines db (m >> k) (λ b. g (f b))
  Refines-seq m k f g hm hk = record {
    at = λ w h.
        let (a, first, rest) = bind-eq-ok m (λ _. k) w h in
        rw rest (hk.at (m w).1 (rw rest at h) ∙ ap g (hm.at w first));
  }

module _ {W : Type 0} (db : Driver W) (laws : WriteLaws db) (cal : Calendar) where
  -- The date of an event is that of its timestamp; reading it writes nothing.
  pub parse_event_date_day :
      (raw : String) (w : W)
      → ((parse_event_date db cal raw w).0 ≡ ok (day_of cal raw (db.now w).0))
        × ((c : String) → db.documents (parse_event_date db cal raw w).1 c ≡ db.documents w c)
  unfolding parse_event_date
  parse_event_date_day raw w = elim (Bool-cases (raw == "")) [
    | inl none_given ↦ rw none_given (refl, laws.now_documents w)
    | inr given ↦ elim (Option-cases (cal.parse_rfc3339 raw)) [
      | inl unreadable ↦ rw (given, unreadable) (refl, laws.now_documents w)
      | inr (t, e) ↦ rw (given, e) (refl, λ c. refl)
    ]
  ]

  pub Refines-dated :
      (raw : String) (k : String → Action W (Unit {0})) (g : String → Book → Book)
      → ((d : String) → Refines db (k d) (g d))
      → (w : W) → ((parse_event_date db cal raw >>= k) w).0 ≡ ok tt
      → book db ((parse_event_date db cal raw >>= k) w).1
        ≡ g (day_of cal raw (db.now w).0) (book db w)
  Refines-dated raw k g hk w h =
      let (day, kept) = parse_event_date_day raw w in
      let v = (parse_event_date db cal raw w).1 in
      rw day (
        (hk (day_of cal raw (db.now w).0)).at v (rw day at h)
        ∙ ap (g (day_of cal raw (db.now w).0)) (book_same db v w kept))

  sale-Refines :
      (r : ℤ) (d : String) (item : OrderItem)
      → Refines db
          (ProductDay.upsert db item.product_id r d item.quantity)
          (λ b. record b { product = on_product item.product_id r d item.quantity b.product })
  sale-Refines r d item = record {
    at = λ w h. product_step db laws w item.product_id r d item.quantity h;
  }

  pub upsert_items-Refines :
      (r : ℤ) (d : String) (items : List OrderItem)
      → Refines db
          (upsert_items db cal r d items)
          (λ b. record b { product = on_order r d items b.product })
  unfolding upsert_items
  upsert_items-Refines r d [] = record {
    at = λ w h i. record (book db w) { product = on_order-nil r d (book db w).product i };
  }
  upsert_items-Refines r d (item ∷ items) = elim (Bool-cases (is_skipped item)) [
    | inl skip ↦ record {
      at = λ w h. rw skip (
          (upsert_items-Refines r d items).at w (rw skip at h) ∙ λ i. record (book db w) {
            product = on_order_skipped r d item items (book db w).product skip i;
          });
    }
    | inr counted ↦ record {
      at = λ w h. rw counted (
          (Refines-seq db _ _ _ _ (sale-Refines r d item) (upsert_items-Refines r d items)).at w
            (rw counted at h)
          ∙ λ i. record (book db w) {
            product = on_order_counted r d item items (book db w).product counted i;
          });
    }
  ]

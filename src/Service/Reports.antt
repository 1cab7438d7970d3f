-- ===== src/Service/Reports.antt =====
-- The read side of analytics_service.go against the counters: what a query returns is in range, in
-- order of its dates, and adds up to what the collection holds.
use food_delivery_analytics.Prelude.{
  String, ◌≡◌, refl, sym, ap, ◌∙◌, true, List, [], ◌∷◌, map, arith, Option, none, some, eq_iff,
}
use food_delivery_analytics.Prelude.Int.{ℤ, ◌+ℤ◌}
use food_delivery_analytics.Prelude.Text.{text_leb_antisym, text_leb_refl}
use food_delivery_analytics.Effect.{Action, ok, pure, ◌>>=◌, bind-eq-ok}
use food_delivery_analytics.Mongo.Document.{
  Document, Filter, Value, int_of, text, equals, between, holds, matches,
}
use food_delivery_analytics.Mongo.Driver.{Driver, ReadLaws, decode_all}
use food_delivery_analytics.Mongo.Totals.{total}
use food_delivery_analytics.Mongo.Queries.{found-all_match, found-sum_field}
use food_delivery_analytics.Mongo.Rows.{
  Rows-map, ReadsText, AsksRange, decode_all-Rows, sum_of, all_in_range, ascending, Rows-sum_of,
  Rows-all_in_range, Rows-ascending,
}

-- A response holds the date, the orders and the revenue of a document.
abbrev pub ReadsDay : {A : Type 0} → (A → String) → (A → ℤ) → (A → ℤ) → Document → A → Type 0
ReadsDay date orders revenue d r =
    ReadsText (d "date") (date r)
    × (orders r ≡ int_of (d "orders_count"))
    × (revenue r ≡ int_of (d "revenue_sum"))

-- The responses to a query for the days from `lo` to `hi` among the documents of a filter.
pub record IsReport {A : Type 0} (date : A → String) (orders revenue : A → ℤ) (g : Filter)
    (lo hi : String) (ds : List Document) (rs : List A) : Type 0 where
  pub dates_ascend : ascending (map date rs) ≡ true
  pub dates_in_range : all_in_range lo hi (map date rs) ≡ true
  pub orders_add_up : sum_of orders rs ≡ total g "orders_count" ds
  pub revenue_adds_up : sum_of revenue rs ≡ total g "revenue_sum" ds

module _ {W : Type 0} (db : Driver W) (laws : ReadLaws db) {Row Resp : Type 0}
    (decode : Document → Action W Row) (respond : Row → Resp) (date : Resp → String)
    (orders revenue : Resp → ℤ)
    (reads : (d : Document) (w : W) (r : Row)
      → (decode d w).0 ≡ ok r
      → ReadsDay date orders revenue d (respond r))
    (c : String) (g : Filter) (lo hi : String) where
  abbrev query : Action W (List Resp)
  query = (db.find c g ("date" ∷ []) >>= decode_all decode) >>= λ rows. pure (map respond rows)

  pub query-IsReport :
      AsksRange "date" g lo hi
      → (w : W) (rs : List Resp) → (query w).0 ≡ ok rs
      → IsReport date orders revenue g lo hi (db.documents w c) rs
  query-IsReport asks w rs h =
      let R = ReadsDay date orders revenue in
      let fetch : Action W (List Row) = db.find c g ("date" ∷ []) >>= decode_all decode in
      let (rows, fetched, next) = bind-eq-ok fetch (λ rows. pure (map respond rows)) w h in
      let (ds, found, next') =
        bind-eq-ok (db.find c g ("date" ∷ [])) (decode_all decode) w fetched in
      let (same, sorted) = laws.find_selects c g "date" [] w ds found in
      let decoded = sym (ap (λ x. x.0) next') ∙ fetched in
      let read = decode_all-Rows (λ d r. R d (respond r)) decode reads ds _ rows decoded in
      let all = Rows-map R respond ds rows read in
      let out : ok (map respond rows) ≡ ok rs = sym (ap (λ x. x.0) next) ∙ h in
      let out' : map respond rows ≡ rs = cc out in
      let hits = found-all_match g ds (db.documents w c) same in
      let date_of : (d : Document) (r : Resp) → R d r → ReadsText (d "date") (date r) =
        λ d r m. m.0 in
      rw (← out') (record {
        dates_ascend = Rows-ascending R "date" date date_of g lo hi asks ds _ all hits sorted;
        dates_in_range = Rows-all_in_range R "date" date date_of g lo hi asks ds _ all hits;
        orders_add_up =
            Rows-sum_of R "orders_count" orders (λ d r m. m.1) ds _ all
            ∙ found-sum_field g ds (db.documents w c) same "orders_count";
        revenue_adds_up =
            Rows-sum_of R "revenue_sum" revenue (λ d r m. m.2) ds _ all
            ∙ found-sum_field g ds (db.documents w c) same "revenue_sum";
      })

-- The days from `d` to `d` are `d`.
pub between_same :
    (d : String) (v : Option Value) → holds (between d d) v ≡ holds (equals (text d)) v
between_same d none = refl
between_same d (some (Value.int n)) = refl
between_same d (some (Value.moment t)) = refl
between_same d (some (Value.text s)) =
    ground (arith, text_leb_antisym d s, text_leb_refl s, eq_iff s d)

-- Filters that agree on every document have the same totals.
pub agreeing_totals :
    (g f : Filter) (k : String)
    → ((d : Document) → matches g d ≡ matches f d)
    → (ds : List Document) → total g k ds ≡ total f k ds
unfolding total
agreeing_totals g f k same [] = refl
agreeing_totals g f k same (d ∷ ds) = rw (same d, agreeing_totals g f k same ds) refl

map-map :
    {A B C : Type 0} (g : B → C) (f : A → B) (rs : List A)
    → map g (map f rs) ≡ map (λ r. g (f r)) rs
map-map g f [] = refl
map-map g f (r ∷ rs) = ap (λ l. g (f r) ∷ l) (map-map g f rs)

sum_of-map :
    {A B : Type 0} (g : B → ℤ) (f : A → B) (rs : List A)
    → sum_of g (map f rs) ≡ sum_of (λ r. g (f r)) rs
unfolding sum_of
sum_of-map g f [] = refl
sum_of-map g f (r ∷ rs) = ap (λ n. g (f r) +ℤ n) (sum_of-map g f rs)

-- Copying the rows into another shape keeps a report.
pub IsReport-map :
    {A B : Type 0} (f : A → B) (date : B → String) (orders revenue : B → ℤ) (g : Filter)
    (lo hi : String) (ds : List Document) (rs : List A)
    → IsReport (λ r. date (f r)) (λ r. orders (f r)) (λ r. revenue (f r)) g lo hi ds rs
    → IsReport date orders revenue g lo hi ds (map f rs)
IsReport-map f date orders revenue g lo hi ds rs report = record {
  dates_ascend = ap ascending (map-map date f rs) ∙ report.dates_ascend;
  dates_in_range = ap (all_in_range lo hi) (map-map date f rs) ∙ report.dates_in_range;
  orders_add_up = sum_of-map orders f rs ∙ report.orders_add_up;
  revenue_adds_up = sum_of-map revenue f rs ∙ report.revenue_adds_up;
}

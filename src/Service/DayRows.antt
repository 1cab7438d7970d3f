-- ===== src/Service/DayRows.antt =====
-- The rows that analytics_service.go answers, one by one, against the documents of the collection.
use mathlib.Core.List.{Perm}
use food_delivery_analytics.Prelude.{
  String, ◌≡◌, refl, sym, ap, ◌∙◌, Bool, true, false, ◌&&◌, Option, none, some, List, [], ◌∷◌, map,
  text_leb, if◌then◌else◌,
}
use food_delivery_analytics.Prelude.Int.{ℤ, beq_ℤ}
use food_delivery_analytics.Effect.{Action, ok, pure, ◌>>=◌, bind-eq-ok}
use food_delivery_analytics.Mongo.Document.{
  Document, Filter, Value, int, int_of, equals, between, holds, select,
}
use food_delivery_analytics.Mongo.Driver.{Driver, ReadLaws, decode_all}
use food_delivery_analytics.Mongo.Rows.{Rows, Rows-map, ReadsText, decode_all-Rows}
use food_delivery_analytics.Service.Averages.{IsAverage}

-- The fields of an answered row.
pub record RowFields (A : Type 0) : Type 0 where
  pub date : A → String
  pub orders : A → ℤ
  pub revenue : A → ℤ
  pub currency : A → String
  pub average : A → ℤ

-- A row has the date, the orders, the revenue and the currency of a document, and the average order
-- that its revenue and its orders give.
abbrev pub ReadsRow : {A : Type 0} → RowFields A → Document → A → Type 0
ReadsRow fs d r =
    ReadsText (d "date") (fs.date r)
    × (fs.orders r ≡ int_of (d "orders_count"))
    × (fs.revenue r ≡ int_of (d "revenue_sum"))
    × ReadsText (d "currency") (fs.currency r)
    × IsAverage (fs.revenue r) (fs.orders r) (fs.average r)

abbrev pub has_id : ℤ → Option Value → Bool
has_id id (some (Value.int n)) = beq_ℤ n id
has_id id _ = false

abbrev pub has_day : String → String → Option Value → Bool
has_day lo hi (some (Value.text s)) = text_leb lo s && text_leb s hi
has_day lo hi _ = false

-- The documents with an id in a field and a date from `lo` to `hi`.
abbrev pub documents_of : String → ℤ → String → String → List Document → List Document
documents_of field id lo hi [] = []
documents_of field id lo hi (d ∷ ds) =
    let rest = documents_of field id lo hi ds in
    if has_id id (d field) && has_day lo hi (d "date") then d ∷ rest else rest

-- The rows are those of the documents of an id, each for one of them.
abbrev pub AreRowsOf :
    {A : Type 0} → RowFields A → String → ℤ → String → String → List Document → List A → Type 0
AreRowsOf fs field id lo hi ds rows =
    (found : List Document) × Perm found (documents_of field id lo hi ds)
    × Rows (ReadsRow fs) found rows

holds-has_id : (id : ℤ) (v : Option Value) → holds (equals (int id)) v ≡ has_id id v
holds-has_id id none = refl
holds-has_id id (some (Value.int n)) = refl
holds-has_id id (some (Value.text s)) = refl
holds-has_id id (some (Value.moment t)) = refl

holds-has_day :
    (lo hi : String) (v : Option Value) → (holds (between lo hi) v && true) ≡ has_day lo hi v
holds-has_day lo hi none = refl
holds-has_day lo hi (some (Value.int n)) = refl
holds-has_day lo hi (some (Value.text s)) = and_true (text_leb lo s && text_leb s hi)
  where
    and_true : (b : Bool) → (b && true) ≡ b
    and_true true = refl
    and_true false = refl
holds-has_day lo hi (some (Value.moment t)) = refl

pub select-documents_of :
    (field : String) (id : ℤ) (lo hi : String) (ds : List Document)
    → select ((field, equals (int id)) ∷ ("date", between lo hi) ∷ []) ds
      ≡ documents_of field id lo hi ds
select-documents_of field id lo hi [] = refl
select-documents_of field id lo hi (d ∷ ds) =
    rw
      (
        holds-has_id id (d field),
        holds-has_day lo hi (d "date"),
        select-documents_of field id lo hi ds,
      )
      refl

module _ {W : Type 0} (db : Driver W) (laws : ReadLaws db) {Row Resp : Type 0}
    (decode : Document → Action W Row) (respond : Row → Resp) (fs : RowFields Resp)
    (reads : (d : Document) (w : W) (r : Row) → (decode d w).0 ≡ ok r → ReadsRow fs d (respond r))
    (c field : String) (id : ℤ) (lo hi : String) where
  abbrev filter : Filter
  filter = (field, equals (int id)) ∷ ("date", between lo hi) ∷ []

  pub query-AreRowsOf :
      (w : W) (rs : List Resp)
      → (((db.find c filter ("date" ∷ []) >>= decode_all decode) >>= λ rows.
            pure (map respond rows))
          w).0
        ≡ ok rs
      → AreRowsOf fs field id lo hi (db.documents w c) rs
  query-AreRowsOf w rs h =
      let fetch : Action W (List Row) = db.find c filter ("date" ∷ []) >>= decode_all decode in
      let (rows, fetched, next) = bind-eq-ok fetch (λ rows. pure (map respond rows)) w h in
      let (ds, found, next') =
        bind-eq-ok (db.find c filter ("date" ∷ [])) (decode_all decode) w fetched in
      let (same, sorted) = laws.find_selects c filter "date" [] w ds found in
      let decoded = sym (ap (λ x. x.0) next') ∙ fetched in
      let R = ReadsRow fs in
      let read = decode_all-Rows (λ d r. R d (respond r)) decode reads ds _ rows decoded in
      let out : ok (map respond rows) ≡ ok rs = sym (ap (λ x. x.0) next) ∙ h in
      let out' : map respond rows ≡ rs = cc out in
      (
        ds,
        rw (← select-documents_of field id lo hi (db.documents w c)) same,
        rw (← out') (Rows-map R respond ds rows read),
      )

-- Copying the rows into another shape keeps what they are rows of.
pub AreRowsOf-map :
    {A B : Type 0} (f : A → B) (fs : RowFields A) (gs : RowFields B) (field : String) (id : ℤ)
    (lo hi : String) (ds : List Document) (rows : List A)
    → ((d : Document) (r : A) → ReadsRow fs d r → ReadsRow gs d (f r))
    → AreRowsOf fs field id lo hi ds rows
    → AreRowsOf gs field id lo hi ds (map f rows)
AreRowsOf-map f fs gs field id lo hi ds rows h (found, same, read) =
    (found, same, Rows-map (ReadsRow gs) f found rows (Rows-weaken found rows read))
  where
    Rows-weaken :
        (found : List Document) (rows : List _)
        → Rows (ReadsRow fs) found rows
        → Rows (λ d r. ReadsRow gs d (f r)) found rows
    Rows-weaken [] [] t = t
    Rows-weaken [] (r ∷ rs) t = elim t [ ]
    Rows-weaken (d ∷ ds) [] t = elim t [ ]
    Rows-weaken (d ∷ ds) (r ∷ rs) (here, rest) = (h d r here, Rows-weaken ds rs rest)

-- ===== src/Mongo/Rows.antt =====
-- Decoding a query's documents into rows, one by one.
use food_delivery_analytics.Prelude.{
  map, Bool, true, ◌&&◌, text_leb, String, ◌≡◌, refl, sym, ap, ◌∙◌, ◌⊎◌, inl, inr, Option, none,
  some, List, [], ◌∷◌, arith,
}
use food_delivery_analytics.Prelude.Int.{ℤ, pos, ◌+ℤ◌}
use food_delivery_analytics.Effect.{Action, ok, pure, ◌>>=◌, bind-eq-ok}
use food_delivery_analytics.Mongo.Document.{
  Document, Filter, Value, text, int_of, between, holds, matches,
}
use food_delivery_analytics.Mongo.Driver.{Driver, ReadLaws, IsSortedBy, decode_all}
use food_delivery_analytics.Mongo.Queries.{sum_field, all_match}

-- Each row stands in the relation to its document.
abbrev pub Rows : {A : Type 0} → (Document → A → Type 0) → List Document → List A → Type 0
Rows R [] [] = Unit
Rows R [] (r ∷ rs) = ⊥
Rows R (d ∷ ds) [] = ⊥
Rows R (d ∷ ds) (r ∷ rs) = R d r × Rows R ds rs

-- A text field and what is read from it.
abbrev pub ReadsText : Option Value → String → Type 0
ReadsText v s = (v ≡ some (text s)) ⊎ ((v ≡ none) × (s ≡ ""))

pub decode_int-int_of :
    {W : Type 0} (db : Driver W)
    → ReadLaws db
    → (v : Option Value) (n : ℤ) → db.decode_int v ≡ ok n
    → n ≡ int_of v
decode_int-int_of db laws v n h = elim (laws.decode_int_sound v n h) [
  | inl stored ↦ rw stored
  | inr (missing, zero) ↦ rw (missing, zero)
]

pub decode_all-Rows :
    {W A : Type 0} (R : Document → A → Type 0) (decode : Document → Action W A)
    → ((d : Document) (w : W) (r : A) → (decode d w).0 ≡ ok r → R d r)
    → (ds : List Document) (w : W) (rs : List A) → (decode_all decode ds w).0 ≡ ok rs
    → Rows R ds rs
unfolding decode_all
decode_all-Rows R decode h [] w [] e = tt
decode_all-Rows R decode h [] w (r ∷ rs) e = cc
decode_all-Rows {W} {A} R decode h (d ∷ ds) w rs e =
    let rest : A → Action W (List A) = λ r. decode_all decode ds >>= λ rows. pure (r ∷ rows) in
    let (r, first, next) = bind-eq-ok (decode d) rest w e in
    let v = (decode d w).1 in
    let e' = sym (ap (λ x. x.0) next) ∙ e in
    let (rs', later, last) = bind-eq-ok (decode_all decode ds) (λ rows. pure (r ∷ rows)) v e' in
    let same : ok (r ∷ rs') ≡ ok rs = sym (ap (λ x. x.0) last) ∙ e' in
    let same' : r ∷ rs' ≡ rs = cc same in
    rw (← same') (h d w r first, decode_all-Rows R decode h ds v rs' later)

-- The sum of a number over rows.
unfoldable pub sum_of : {A : Type 0} → (A → ℤ) → List A → ℤ
sum_of f [] = pos 0
sum_of f (r ∷ rs) = f r +ℤ sum_of f rs

abbrev pub in_range : String → String → String → Bool
in_range lo hi s = text_leb lo s && text_leb s hi

abbrev pub all_in_range : String → String → List String → Bool
all_in_range lo hi [] = true
all_in_range lo hi (s ∷ ss) = in_range lo hi s && all_in_range lo hi ss

abbrev pub ascending : List String → Bool
ascending [] = true
ascending (s ∷ []) = true
ascending (s ∷ t ∷ ss) = text_leb s t && ascending (t ∷ ss)

-- A filter that asks for a date between the bounds.
abbrev pub AsksRange : String → Filter → String → String → Type 0
AsksRange k g lo hi = (d : Document) → matches g d ≡ true → holds (between lo hi) (d k) ≡ true

pub Rows-map :
    {A B : Type 0} (R : Document → B → Type 0) (f : A → B) (ds : List Document) (rs : List A)
    → Rows (λ d r. R d (f r)) ds rs
    → Rows R ds (map f rs)
Rows-map R f [] [] rows = tt
Rows-map R f [] (r ∷ rs) rows = absurd rows
Rows-map R f (d ∷ ds) [] rows = absurd rows
Rows-map R f (d ∷ ds) (r ∷ rs) rows = (rows.0, Rows-map R f ds rs rows.1)

module _ {A : Type 0} (R : Document → A → Type 0) where
  pub Rows-sum_of :
      (k : String) (f : A → ℤ)
      → ((d : Document) (r : A) → R d r → f r ≡ int_of (d k))
      → (ds : List Document) (rs : List A) → Rows R ds rs
      → sum_of f rs ≡ sum_field k ds
  unfolding sum_of sum_field
  Rows-sum_of k f h [] [] rows = refl
  Rows-sum_of k f h [] (r ∷ rs) rows = absurd rows
  Rows-sum_of k f h (d ∷ ds) [] rows = absurd rows
  Rows-sum_of k f h (d ∷ ds) (r ∷ rs) rows = rw (h d r rows.0, Rows-sum_of k f h ds rs rows.1) refl

  module _ (k : String) (date : A → String)
      (reads : (d : Document) (r : A) → R d r → ReadsText (d k) (date r)) (g : Filter)
      (lo hi : String) where
    not_held : (v : Option Value) → v ≡ none → holds (between lo hi) v ≡ true → ⊥
    not_held none e h = cc h
    not_held (some v) e h = cc e

    module _ (asks : AsksRange k g lo hi) where
      stored_date :
          (d : Document) (r : A)
          → R d r
          → matches g d ≡ true
          → (d k ≡ some (text (date r))) × (in_range lo hi (date r) ≡ true)
      stored_date d r row hit = elim (reads d r row) [
        | inl stored ↦ (stored, rw (← asks d hit, stored) refl)
        | inr (missing, _) ↦ absurd (not_held (d k) missing (asks d hit))
      ]

      pub Rows-all_in_range :
          (ds : List Document) (rs : List A)
          → Rows R ds rs
          → all_match g ds ≡ true
          → all_in_range lo hi (map date rs) ≡ true
      unfolding all_match
      Rows-all_in_range [] [] rows h = refl
      Rows-all_in_range [] (r ∷ rs) rows h = absurd rows
      Rows-all_in_range (d ∷ ds) [] rows h = refl
      Rows-all_in_range (d ∷ ds) (r ∷ rs) rows h =
          ground (arith, stored_date d r rows.0, Rows-all_in_range ds rs rows.1)

      pub Rows-ascending :
          (ds : List Document) (rs : List A)
          → Rows R ds rs
          → all_match g ds ≡ true
          → IsSortedBy k ds
          → ascending (map date rs) ≡ true
      unfolding all_match
      Rows-ascending ds [] rows h s = refl
      Rows-ascending ds (r ∷ []) rows h s = refl
      Rows-ascending [] (r ∷ q ∷ rs) rows h s = absurd rows
      Rows-ascending (d ∷ []) (r ∷ q ∷ rs) rows h s = absurd rows.1
      Rows-ascending (d ∷ e ∷ ds) (r ∷ q ∷ rs) rows h s = ground (
        arith,
        stored_date d r rows.0,
        stored_date e q rows.1.0,
        s.0 (date r) (date q),
        Rows-ascending (e ∷ ds) (q ∷ rs) rows.1 (ground arith) s.1,
      )

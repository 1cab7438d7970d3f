-- ===== src/Mongo/Queries.antt =====
-- What a query returns, as a whole: its documents all match, and sums over them are those of the
-- collection.
use mathlib.Core.List.{Perm, Permᴰ}
use mathlib.Core.Logic.{∥∥₁_elim}
use native.Mathlib.Nat.{ℕ_set}
use food_delivery_analytics.Prelude.{
  String, ◌≡◌, refl, sym, ◌∙◌, ap, ◌&&◌, Bool, true, List, [], ◌∷◌, arith, Bool-cases, inl, inr,
}
use food_delivery_analytics.Prelude.Int.{ℤ, pos, ◌+ℤ◌, int_laws, zero_+ℤ}
use food_delivery_analytics.Mongo.Document.{Document, Filter, int_of, matches, select}
use food_delivery_analytics.Mongo.Totals.{total}

ℤ-set : IsSet ℤ
ℤ-set = hlevel ℕ_set

swap_first : (a b c : ℤ) → a +ℤ (b +ℤ c) ≡ b +ℤ (a +ℤ c)
swap_first a b c = omega int_laws

-- The plain sum of a field.
unfoldable pub sum_field : String → List Document → ℤ
sum_field k [] = pos 0
sum_field k (d ∷ ds) = int_of (d k) +ℤ sum_field k ds

unfoldable pub all_match : Filter → List Document → Bool
all_match f [] = true
all_match f (d ∷ ds) = matches f d && all_match f ds

sum_field-permᴰ :
    (k : String) {ds es : List Document} → Permᴰ ds es → sum_field k ds ≡ sum_field k es
unfolding sum_field
sum_field-permᴰ k Permᴰ.nil = refl
sum_field-permᴰ k (Permᴰ.cons p q) = cc (p, sum_field-permᴰ k q)
sum_field-permᴰ k (Permᴰ.swap {a} {b} {l} p q) =
    rw (← p, ← q) (swap_first (int_of (a k)) (int_of (b k)) (sum_field k l))
sum_field-permᴰ k (Permᴰ.trans p q) = sum_field-permᴰ k p ∙ sum_field-permᴰ k q

all_match-permᴰ :
    (f : Filter) {ds es : List Document} → Permᴰ ds es → all_match f ds ≡ all_match f es
unfolding all_match
all_match-permᴰ f Permᴰ.nil = refl
all_match-permᴰ f (Permᴰ.cons p q) = cc (p, all_match-permᴰ f q)
all_match-permᴰ f (Permᴰ.swap {a} {b} {l} p q) = rw (← p, ← q) (ground arith)
all_match-permᴰ f (Permᴰ.trans p q) = all_match-permᴰ f p ∙ all_match-permᴰ f q

all_match-select : (f : Filter) (ds : List Document) → all_match f (select f ds) ≡ true
unfolding all_match
all_match-select f [] = refl
all_match-select f (d ∷ ds) = elim (Bool-cases (matches f d)) [
  | inl hit ↦ rw (hit, hit) (all_match-select f ds)
  | inr miss ↦ rw miss (all_match-select f ds)
]

sum_field-select :
    (f : Filter) (k : String) (ds : List Document) → sum_field k (select f ds) ≡ total f k ds
unfolding sum_field total
sum_field-select f k [] = refl
sum_field-select f k (d ∷ ds) = elim (Bool-cases (matches f d)) [
  | inl hit ↦ rw hit (ap (λ n. int_of (d k) +ℤ n) (sum_field-select f k ds))
  | inr miss ↦ rw miss (sum_field-select f k ds ∙ sym (zero_+ℤ (total f k ds)))
]

module _ (f : Filter) (found ds : List Document) (p : Perm found (select f ds)) where
  -- Every document of a result matches the filter.
  pub found-all_match : all_match f found ≡ true
  found-all_match = ∥∥₁_elim p (hlevel) (λ q. all_match-permᴰ f q) ∙ all_match-select f ds

  -- A sum over the result is the sum over what matches in the collection.
  pub found-sum_field : (k : String) → sum_field k found ≡ total f k ds
  found-sum_field k =
      ∥∥₁_elim p (ℤ-set (sum_field k found) (sum_field k (select f ds))) (λ q. sum_field-permᴰ k q)
      ∙ sum_field-select f k ds

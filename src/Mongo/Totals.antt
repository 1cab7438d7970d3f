-- ===== src/Mongo/Totals.antt =====
-- The sum of a field over the documents that a filter selects, and how an update moves it.
use food_delivery_analytics.Prelude.{
  String, ◌≡◌, refl, ◌++◌, Bool, true, ◌&&◌, ◌||◌, List, [], ◌∷◌, arith, if◌then◌else◌,
}
use food_delivery_analytics.Prelude.Int.{ℤ, pos, ◌+ℤ◌, int_laws, +ℤ_zero, +ℤ_comm}
use food_delivery_analytics.Mongo.Document.{
  Document, Filter, Update, int_of, matches, any_match, apply_update, upsert_document,
}
use food_delivery_analytics.Mongo.Driver.{Updated, replaced, inserted, unmatched}

abbrev pub share : Filter → String → Document → ℤ
share g k d = if matches g d then int_of (d k) else pos 0

unfoldable pub total : Filter → String → List Document → ℤ
total g k [] = pos 0
total g k (d ∷ ds) = share g k d +ℤ total g k ds

total-middle :
    (g : Filter) (k : String) (before : List Document) (d : Document) (after : List Document)
    → total g k (before ++ d ∷ after) ≡ share g k d +ℤ total g k (before ++ after)
unfolding total
total-middle g k [] d after = refl
total-middle g k (x ∷ before) d after = rw (total-middle g k before d after) (omega int_laws)

pub any_match-middle :
    (f : Filter) (before : List Document) (d : Document) (after : List Document)
    → any_match f (before ++ d ∷ after) ≡ (matches f d || any_match f (before ++ after))
any_match-middle f [] d after = refl
any_match-middle f (x ∷ before) d after = rw (any_match-middle f before d after) (ground arith)

regroup : (a b n : ℤ) → a +ℤ n +ℤ b ≡ a +ℤ b +ℤ n
regroup a b n = omega int_laws

-- The update adds `n` to the number in field `k` of a document that it finds or makes.
abbrev pub Moves : Filter → Update → String → ℤ → Type 0
Moves f u k n =
    ((d : Document) → int_of (apply_update u d k) ≡ int_of (d k) +ℤ n)
    × (int_of (upsert_document f u k) ≡ n)

-- One update, as seen through a filter `g` that does not tell the documents of `f` apart: all of
-- them are in its view if `seen` holds, and none otherwise.
module _ (f g : Filter) (u : Update) where
  pub record Sees (seen : Bool) : Type 0 where
    pub found_seen : (d : Document) → matches f d ≡ true → matches g d ≡ seen
    pub kept_seen : (d : Document) → matches f d ≡ true → matches g (apply_update u d) ≡ seen
    pub new_seen : matches g (upsert_document f u) ≡ seen

module _ (f g : Filter) (u : Update) (seen upsert : Bool) (ds ds' : List Document) where
  -- The total moves by `n` if the documents are in view and the update wrote one.
  pub Updated-total :
      Sees f g u seen
      → (k : String) (n : ℤ) → Moves f u k n
      → Updated f u upsert ds ds'
      → total g k ds' ≡ total g k ds +ℤ (if seen && (upsert || any_match f ds) then n else pos 0)
  Updated-total s k n m (replaced before d after e hit e') = ground (
    arith,
    total-middle g k before d after,
    total-middle g k before (apply_update u d) after,
    any_match-middle f before d after,
    s.found_seen d hit,
    s.kept_seen d hit,
    m.0 d,
    regroup (int_of (d k)) (total g k (before ++ after)) n,
    +ℤ_zero (pos 0 +ℤ total g k (before ++ after)),
  )
  Updated-total s k n m (inserted before after miss up e e') = ground (
    arith,
    total-middle g k before (upsert_document f u) after,
    s.new_seen,
    m.1,
    +ℤ_comm n (total g k (before ++ after)),
    +ℤ_comm (pos 0) (total g k (before ++ after)),
  )
  Updated-total s k n m (unmatched miss up e') = ground (arith, +ℤ_zero (total g k ds))

  -- Afterwards the view holds a document if it held one before, or if one was inserted into it.
  pub Updated-any_match :
      Sees f g u seen
      → Updated f u upsert ds ds'
      → any_match g ds' ≡ (any_match g ds || seen && upsert)
  Updated-any_match s (replaced before d after e hit e') = ground (
    arith,
    any_match-middle g before d after,
    any_match-middle g before (apply_update u d) after,
    s.found_seen d hit,
    s.kept_seen d hit,
  )
  Updated-any_match s (inserted before after miss up e e') =
      ground (arith, any_match-middle g before (upsert_document f u) after, s.new_seen)
  Updated-any_match s (unmatched miss up e') = ground arith

-- ===== src/Mongo/Document.antt =====
-- The values, filters and updates that the repositories hand to the driver, and the documented
-- meaning of the operators among them: equality, `$gte` with `$lte`, `$inc`, `$set`, `$setOnInsert`.
use food_delivery_analytics.Prelude.{
  ℕ, String, ◌≡◌, Bool, true, false, ◌&&◌, ◌||◌, Option, none, some, List, [], ◌∷◌, arith, ◌==◌,
  eq_iff, nat_beq, text_leb, if◌then◌else◌,
}
use food_delivery_analytics.Prelude.Int.{ℤ, pos, ◌+ℤ◌, beq_ℤ, beq_ℤ_iff}

-- A moment as a number of nanoseconds; only the caches compare moments.
abbrev pub Time : Type 0
Time = ℕ

pub data Value : Type 0 where
  int : ℤ → Value
  text : String → Value
  moment : Time → Value

abbrev pub value_beq : Value → Value → Bool
value_beq (int a) (int b) = beq_ℤ a b
value_beq (text a) (text b) = a == b
value_beq (moment a) (moment b) = nat_beq a b
value_beq _ _ = false

-- A document by its fields; the order of fields plays no part.
abbrev pub Document : Type 0
Document = String → Option Value

abbrev pub empty : Document
empty k = none

abbrev pub put : String → Value → Document → Document
put k v d j = if j == k then some v else d j

-- The number in a field, and 0 for a missing one, as `$inc` has it.
abbrev pub int_of : Option Value → ℤ
int_of (some (int n)) = n
int_of _ = pos 0

-- What a filter asks of one field.
pub data Condition : Type 0 where
  equals : Value → Condition
  between : String → String → Condition

abbrev pub Filter : Type 0
Filter = List (String × Condition)

abbrev pub holds : Condition → Option Value → Bool
holds (equals v) (some u) = value_beq u v
holds (between lo hi) (some (text s)) = text_leb lo s && text_leb s hi
holds _ _ = false

abbrev pub matches : Filter → Document → Bool
matches [] d = true
matches ((k, c) ∷ f) d = holds c (d k) && matches f d

pub record Update : Type 0 where
  pub inc : List (String × ℤ)
  pub set : List (String × Value)
  pub set_on_insert : List (String × Value)

abbrev pub inc_all : List (String × ℤ) → Document → Document
inc_all [] d = d
inc_all ((k, n) ∷ r) d = inc_all r (put k (int (int_of (d k) +ℤ n)) d)

abbrev pub set_all : List (String × Value) → Document → Document
set_all [] d = d
set_all ((k, v) ∷ r) d = set_all r (put k v d)

-- The document after an update that found it.
abbrev pub apply_update : Update → Document → Document
apply_update u d = set_all u.set (inc_all u.inc d)

abbrev pub filter_fields : Filter → Document
filter_fields [] = empty
filter_fields ((k, equals v) ∷ f) = put k v (filter_fields f)
filter_fields ((k, between lo hi) ∷ f) = filter_fields f

-- The document that an upsert inserts: the filter's equalities, with the update on top.
abbrev pub upsert_document : Filter → Update → Document
upsert_document f u = apply_update u (set_all u.set_on_insert (filter_fields f))

abbrev pub any_match : Filter → List Document → Bool
any_match f [] = false
any_match f (d ∷ ds) = matches f d || any_match f ds

-- The documents that a filter selects, in the order of the collection.
abbrev pub select : Filter → List Document → List Document
select f [] = []
select f (d ∷ ds) = let rest = select f ds in if matches f d then d ∷ rest else rest

pub value_beq_iff : (a b : Value) → value_beq a b ≡ true → a ≡ b
value_beq_iff (int a) (int b) h = ground (arith, beq_ℤ_iff a b)
value_beq_iff (text a) (text b) h = ground (arith, eq_iff a b)
value_beq_iff (moment a) (moment b) h = ground arith
value_beq_iff (int a) (text b) h = cc
value_beq_iff (int a) (moment b) h = cc
value_beq_iff (text a) (int b) h = cc
value_beq_iff (text a) (moment b) h = cc
value_beq_iff (moment a) (int b) h = cc
value_beq_iff (moment a) (text b) h = cc

-- An equality in a filter determines the field.
pub holds-equals : (v : Value) (o : Option Value) → holds (equals v) o ≡ true → o ≡ some v
holds-equals v none h = cc
holds-equals v (some u) h = ground (arith, value_beq_iff u v h)

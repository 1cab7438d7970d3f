-- ===== src/Repository/Indexes/Unique.antt =====
-- What a unique index, as in app/analytics/repository/indexes.go, means for the rows of a filter.
use food_delivery_analytics.Prelude.{
  String, ◌≡◌, refl, sym, ◌∙◌, ap, ◌⊎◌, inl, inr, Bool, true, false, ◌&&◌, List, [], ◌∷◌,
  Bool-cases,
}
use food_delivery_analytics.Prelude.Int.{ℤ}
use food_delivery_analytics.Mongo.Document.{
  Document, Value, equals, Filter, holds, matches, select, holds-equals,
}

-- Two documents hold the same under each key; a missing field counts as a value of its own.
abbrev pub Alike : List (String × ℤ) → Document → Document → Type 0
Alike [] d e = Unit {0}
Alike ((k, order) ∷ keys) d e = (d k ≡ e k) × Alike keys d e

abbrev pub NoneAlike : List (String × ℤ) → Document → List Document → Type 0
NoneAlike keys d [] = Unit {0}
NoneAlike keys d (e ∷ es) = (¬ Alike keys d e) × NoneAlike keys d es

-- What a unique index enforces.
abbrev pub IsUnique : List (String × ℤ) → List Document → Type 0
IsUnique keys [] = Unit {0}
IsUnique keys (d ∷ ds) = NoneAlike keys d ds × IsUnique keys ds

abbrev pub AtMostOne : Filter → List Document → Type 0
AtMostOne f ds = (select f ds ≡ []) ⊎ ((d : Document) × (select f ds ≡ d ∷ []))

-- A filter fixes the keys: the documents that match it are alike.
abbrev Fixes : Filter → List (String × ℤ) → Type 0
Fixes f keys = (d e : Document) → matches f d ≡ true → matches f e ≡ true → Alike keys d e

none_selected :
    (f : Filter) (keys : List (String × ℤ)) (d : Document) (ds : List Document)
    → Fixes f keys
    → matches f d ≡ true
    → NoneAlike keys d ds
    → select f ds ≡ []
none_selected f keys d [] fixes h alone = refl
none_selected f keys d (e ∷ es) fixes h (other, alone) = elim (Bool-cases (matches f e)) [
  | inl too ↦ absurd (other (fixes d e h too))
  | inr not_it ↦ rw not_it (none_selected f keys d es fixes h alone)
]

select-AtMostOne :
    (f : Filter) (keys : List (String × ℤ)) (ds : List Document)
    → Fixes f keys
    → IsUnique keys ds
    → AtMostOne f ds
select-AtMostOne f keys [] fixes h = inl refl
select-AtMostOne f keys (d ∷ ds) fixes (alone, rest) = elim (Bool-cases (matches f d)) [
  | inl it ↦ rw it (inr (d, ap (λ es. d ∷ es) (none_selected f keys d ds fixes it alone)))
  | inr not_it ↦ rw not_it (select-AtMostOne f keys ds fixes rest)
]

and_parts : (a b : Bool) → (a && b) ≡ true → (a ≡ true) × (b ≡ true)
and_parts true b h = (refl, h)
and_parts false b h = cc h

-- Fields with the values that they are asked for, as a filter and as the keys of an index.
abbrev pub filter_of : List (String × ℤ × Value) → Filter
filter_of [] = []
filter_of ((k, order, v) ∷ pins) = (k, equals v) ∷ filter_of pins

abbrev pub keys_of : List (String × ℤ × Value) → List (String × ℤ)
keys_of [] = []
keys_of ((k, order, v) ∷ pins) = (k, order) ∷ keys_of pins

filter_of-Fixes : (pins : List (String × ℤ × Value)) → Fixes (filter_of pins) (keys_of pins)
filter_of-Fixes [] d e h g = tt
filter_of-Fixes ((k, order, v) ∷ pins) d e h g =
    let (held, others) = and_parts (holds (equals v) (d k)) (matches (filter_of pins) d) h in
    let (held', others') = and_parts (holds (equals v) (e k)) (matches (filter_of pins) e) g in
    (
      holds-equals v (d k) held ∙ sym (holds-equals v (e k) held'),
      filter_of-Fixes pins d e others others',
    )

pub IsUnique-AtMostOne :
    (pins : List (String × ℤ × Value)) (ds : List Document)
    → IsUnique (keys_of pins) ds
    → AtMostOne (filter_of pins) ds
IsUnique-AtMostOne pins ds unique =
    select-AtMostOne (filter_of pins) (keys_of pins) ds (filter_of-Fixes pins) unique

-- ===== src/Mongo/Memory/Reads.antt =====
-- The database in memory obeys the laws of reading.
use mathlib.Core.List.{Perm}
use mathlib.Core.List.Perm
use food_delivery_analytics.Prelude.{
  String, ◌≡◌, refl, List, [], ◌∷◌, arith, Bool-cases, ◌⊎◌, inl, inr, true, false, Option, none,
  some,
}
use food_delivery_analytics.Prelude.Int.{ℤ, pos}
use food_delivery_analytics.Effect.{ok}
use food_delivery_analytics.Prelude.Text.{text_leb_flip}
use food_delivery_analytics.Mongo.Document.{Document, Value, int, text, moment, select}
use food_delivery_analytics.Mongo.Driver.{ReadLaws, InOrder, IsSortedBy}
use food_delivery_analytics.Mongo.Memory.{before_in, insert_sorted, sort_by, memory}

insert_sorted-perm :
    (k : String) (d : Document) (ds : List Document) → Perm (insert_sorted k d ds) (d ∷ ds)
insert_sorted-perm k d [] = Perm.refl (d ∷ [])
insert_sorted-perm k d (e ∷ ds) = elim (Bool-cases (before_in k d e)) [
  | inl first ↦ rw first (Perm.refl (d ∷ e ∷ ds))
  | inr later ↦ rw later (Perm.trans (Perm.cons e (insert_sorted-perm k d ds)) (Perm.swap d e ds))
]

sort_by-perm : (k : String) (ks : List String) (ds : List Document) → Perm (sort_by (k ∷ ks) ds) ds
sort_by-perm k ks [] = Perm.refl []
sort_by-perm k ks (d ∷ ds) =
    Perm.trans (insert_sorted-perm k d (sort_by (k ∷ ks) ds)) (Perm.cons d (sort_by-perm k ks ds))

before_in-InOrder : (k : String) (d e : Document) → before_in k d e ≡ true → InOrder k d e
before_in-InOrder k d e h s t p q = ground arith

-- Of two documents that are not in order one way, the other way is.
InOrder-flip : (k : String) (d e : Document) → before_in k d e ≡ false → InOrder k e d
InOrder-flip k d e h s t p q = text_leb_flip t s (ground arith)

insert_sorted-IsSortedBy :
    (k : String) (e d : Document) (ds : List Document)
    → InOrder k e d
    → IsSortedBy k (e ∷ ds)
    → IsSortedBy k (e ∷ insert_sorted k d ds)
insert_sorted-IsSortedBy k e d [] o h = (o, tt)
insert_sorted-IsSortedBy k e d (f ∷ ds) o h = elim (Bool-cases (before_in k d f)) [
  | inl first ↦ rw first (o, (before_in-InOrder k d f first, h.1))
  | inr later ↦ rw later (h.0, insert_sorted-IsSortedBy k f d ds (InOrder-flip k d f later) h.1)
]

insert_front-IsSortedBy :
    (k : String) (d : Document) (ds : List Document)
    → IsSortedBy k ds
    → IsSortedBy k (insert_sorted k d ds)
insert_front-IsSortedBy k d [] h = tt
insert_front-IsSortedBy k d (f ∷ ds) h = elim (Bool-cases (before_in k d f)) [
  | inl first ↦ rw first (before_in-InOrder k d f first, h)
  | inr later ↦ rw later (insert_sorted-IsSortedBy k f d ds (InOrder-flip k d f later) h)
]

sort_by-IsSortedBy :
    (k : String) (ks : List String) (ds : List Document) → IsSortedBy k (sort_by (k ∷ ks) ds)
sort_by-IsSortedBy k ks [] = tt
sort_by-IsSortedBy k ks (d ∷ ds) =
    insert_front-IsSortedBy k d (sort_by (k ∷ ks) ds) (sort_by-IsSortedBy k ks ds)

decoded_int :
    (v : Option Value) {n : ℤ}
    → memory.decode_int v ≡ ok n
    → (v ≡ some (int n)) ⊎ ((v ≡ none) × (n ≡ pos 0))
decoded_int none h = inr (refl, ground arith)
decoded_int (some (int n)) h = inl (ground arith)
decoded_int (some (text s)) h = absurd (ground arith)
decoded_int (some (moment t)) h = absurd (ground arith)

decoded_text :
    (v : Option Value) {s : String}
    → memory.decode_text v ≡ ok s
    → (v ≡ some (text s)) ⊎ ((v ≡ none) × (s ≡ ""))
decoded_text none h = inr (refl, ground arith)
decoded_text (some (text s)) h = inl (ground arith)
decoded_text (some (int n)) h = absurd (ground arith)
decoded_text (some (moment t)) h = absurd (ground arith)

pub memory-ReadLaws : ReadLaws memory
memory-ReadLaws = record {
  find_selects = λ c f k ks w ds h.
      let found = select f (w.stored c) in
      let same : sort_by (k ∷ ks) found ≡ ds = ground arith in
      rw (← same) (sort_by-perm k ks found, sort_by-IsSortedBy k ks found);
  find_frame = λ c c' f ks w. refl;
  decode_int_sound = λ v n h. decoded_int v h;
  decode_text_sound = λ v s h. decoded_text v h;
}

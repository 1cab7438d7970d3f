-- ===== src/Prelude/Text.antt =====
-- The order of texts is total and antisymmetric.
use Prim.Native.Char.{Char, code}
use Prim.Native.Nat.{compare as compare_ℕ, Ordering}
use Prim.Native.String.{compare as compare_text, then}
use Prim.Native.String.compare
use text.Mathlib.TextEquality.{path_by_compare}
use text.Mathlib.TextPositions.{eq_refl}
use food_delivery_analytics.Prelude.{String, ◌≡◌, refl, true, false, arith, text_leb}

cons_cons :
    (c d : Char) (s t : String)
    → compare_text (String.◌∷◌ c s) (String.◌∷◌ d t)
      ≡ then (compare_ℕ (code c) (code d)) (compare_text s t)
cons_cons c d s t = λ i. compare.cons-cons c d s t i

nil_cons : (d : Char) (t : String) → compare_text String.[] (String.◌∷◌ d t) ≡ Ordering.lt
nil_cons d t = λ i. compare.nil-cons d t i

cons_nil : (c : Char) (s : String) → compare_text (String.◌∷◌ c s) String.[] ≡ Ordering.gt
cons_nil c s = λ i. compare.cons-nil c s i

pub text_leb_flip : (s t : String) → text_leb s t ≡ false → text_leb t s ≡ true
text_leb_flip String.[] String.[] h = refl
text_leb_flip String.[] (String.◌∷◌ d t) h = ground (arith, nil_cons d t)
text_leb_flip (String.◌∷◌ c s) String.[] h = ground (arith, nil_cons c s)
text_leb_flip (String.◌∷◌ c s) (String.◌∷◌ d t) h =
    ground (arith, text_leb_flip s t, cons_cons c d s t, cons_cons d c t s)

compare_antisym :
    (s t : String) → text_leb s t ≡ true → text_leb t s ≡ true → compare_text s t ≡ Ordering.eq
compare_antisym String.[] String.[] h k = refl
compare_antisym String.[] (String.◌∷◌ d t) h k = ground (arith, cons_nil d t)
compare_antisym (String.◌∷◌ c s) String.[] h k = ground (arith, cons_nil c s)
compare_antisym (String.◌∷◌ c s) (String.◌∷◌ d t) h k =
    ground (arith, compare_antisym s t, cons_cons c d s t, cons_cons d c t s)

pub text_leb_antisym : (s t : String) → text_leb s t ≡ true → text_leb t s ≡ true → s ≡ t
text_leb_antisym s t h k = path_by_compare s t (compare_antisym s t h k)

pub text_leb_refl : (s : String) → text_leb s s ≡ true
text_leb_refl s = ground (arith, eq_refl s)

-- ===== src/Mongo/Driver.antt =====
-- The driver's calls that the repositories make, over an abstract outside world `W`, and the laws
-- that its documentation gives for them. `documents` is what a collection holds; no code reads it.
use mathlib.Core.List.{Perm}
use food_delivery_analytics.Prelude.{
  String, ◌≡◌, ◌⊎◌, ◌++◌, Bool, true, false, List, [], ◌∷◌, ◌==◌, Option, none, some, text_leb,
}
use food_delivery_analytics.Prelude.Int.{ℤ, pos}
use food_delivery_analytics.Effect.{Action, Result, ok, err, duplicate_key, pure, ◌>>=◌}
use food_delivery_analytics.Mongo.Document.{
  Time, Document, Filter, Update, Value, int, text, equals, matches, select, any_match,
  apply_update, upsert_document,
}

pub record Driver (W : Type 0) : Type 0 where
  -- `time.Now().UTC()`
  pub now : W → Time × W
  -- `UpdateOne`: collection, filter, update, and whether `SetUpsert(true)`
  pub update_one : String → Filter → Update → Bool → Action W (Unit {0})
  -- `Find` with an ascending sort by the listed fields, and `cursor.All` into raw documents
  pub find : String → Filter → List String → Action W (List Document)
  -- the driver's reading of a stored field into a Go `int`, `string` or `time.Time`
  pub decode_int : Option Value → Result ℤ
  pub decode_text : Option Value → Result String
  pub decode_moment : Option Value → Result Time
  pub insert_one : String → Document → Action W (Unit {0})
  pub documents : W → String → List Document

-- `now` as a step that cannot fail.
abbrev pub clock : {W : Type 0} → Driver W → Action W Time
clock db w = let (t, w') = db.now w in (ok t, w')

-- `cursor.All`: every document goes into a struct of the caller's, by the struct's tags.
unfoldable pub decode_all :
    {W A : Type 0} → (Document → Action W A) → List Document → Action W (List A)
decode_all decode [] = pure []
decode_all decode (d ∷ ds) = do row ← decode d; rows ← decode_all decode ds; pure (row ∷ rows)

-- One document more, wherever the collection puts it.
pub data Inserted (d : Document) (ds ds' : List Document) : Type 0 where
  inserted_at :
      (before after : List Document)
      → ds ≡ before ++ after
      → ds' ≡ before ++ d ∷ after
      → Inserted d ds ds'

-- What `UpdateOne` does to a collection when it succeeds: one matching document is updated; if
-- there is none, an upsert inserts one document, and a plain update does nothing.
pub data Updated (f : Filter) (u : Update) (upsert : Bool) (ds ds' : List Document) : Type 0 where
  replaced :
      (before : List Document) (d : Document) (after : List Document)
      → ds ≡ before ++ d ∷ after
      → matches f d ≡ true
      → ds' ≡ before ++ apply_update u d ∷ after
      → Updated f u upsert ds ds'
  inserted :
      (before after : List Document)
      → any_match f ds ≡ false
      → upsert ≡ true
      → ds ≡ before ++ after
      → ds' ≡ before ++ upsert_document f u ∷ after
      → Updated f u upsert ds ds'
  unmatched : any_match f ds ≡ false → upsert ≡ false → ds' ≡ ds → Updated f u upsert ds ds'

-- The order of a leading sort field, on the documents that hold a text there.
abbrev pub InOrder : String → Document → Document → Type 0
InOrder k d e = (s t : String) → d k ≡ some (text s) → e k ≡ some (text t) → text_leb s t ≡ true

abbrev pub IsSortedBy : String → List Document → Type 0
IsSortedBy k [] = Unit
IsSortedBy k (d ∷ []) = Unit
IsSortedBy k (d ∷ e ∷ ds) = InOrder k d e × IsSortedBy k (e ∷ ds)

-- The laws of reading: `Find` returns the selected documents, sorted, and changes nothing; a field
-- that can be decoded gives what was stored, and a missing one the zero value.
pub record ReadLaws {W : Type 0} (db : Driver W) : Type 0 where
  pub find_selects :
      (c : String) (f : Filter) (k : String) (ks : List String) (w : W) (ds : List Document)
      → (db.find c f (k ∷ ks) w).0 ≡ ok ds
      → Perm ds (select f (db.documents w c)) × IsSortedBy k ds
  pub find_frame :
      (c c' : String) (f : Filter) (ks : List String) (w : W)
      → db.documents (db.find c f ks w).1 c' ≡ db.documents w c'
  pub decode_int_sound :
      (v : Option Value) (n : ℤ)
      → db.decode_int v ≡ ok n
      → (v ≡ some (int n)) ⊎ ((v ≡ none) × (n ≡ pos 0))
  pub decode_text_sound :
      (v : Option Value) (s : String)
      → db.decode_text v ≡ ok s
      → (v ≡ some (text s)) ⊎ ((v ≡ none) × (s ≡ ""))

-- The laws of inserting into a collection with a unique index on field `k`: a document is inserted
-- if no other holds the same value there, and the duplicate-key error leaves the collection alone.
pub record UniqueIndex {W : Type 0} (db : Driver W) (c k : String) : Type 0 where
  pub insert_one_inserts :
      (d : Document) (v : Value) (w : W)
      → d k ≡ some v
      → (db.insert_one c d w).0 ≡ ok tt
      → (any_match ((k, equals v) ∷ []) (db.documents w c) ≡ false)
        × Inserted d (db.documents w c) (db.documents (db.insert_one c d w).1 c)
  pub insert_one_duplicate :
      (d : Document) (v : Value) (w : W)
      → d k ≡ some v
      → (db.insert_one c d w).0 ≡ err duplicate_key
      → (any_match ((k, equals v) ∷ []) (db.documents w c) ≡ true)
        × (db.documents (db.insert_one c d w).1 c ≡ db.documents w c)
  -- whatever the call reports, it has inserted the document or done nothing
  pub insert_one_outcome :
      (d : Document) (w : W)
      → (db.documents (db.insert_one c d w).1 c ≡ db.documents w c)
        ⊎ Inserted d (db.documents w c) (db.documents (db.insert_one c d w).1 c)
  pub insert_one_frame :
      (d : Document) (w : W) (c' : String)
      → (c' == c) ≡ false
      → db.documents (db.insert_one c d w).1 c' ≡ db.documents w c'

-- The laws of writing. A call that reports an error may have been carried out or not.
pub record WriteLaws {W : Type 0} (db : Driver W) : Type 0 where
  pub now_documents : (w : W) (c : String) → db.documents (db.now w).1 c ≡ db.documents w c
  pub update_one_updates :
      (c : String) (f : Filter) (u : Update) (upsert : Bool) (w : W)
      → (db.update_one c f u upsert w).0 ≡ ok tt
      → Updated f u upsert (db.documents w c) (db.documents (db.update_one c f u upsert w).1 c)
  pub update_one_frame :
      (c c' : String) (f : Filter) (u : Update) (upsert : Bool) (w : W)
      → (c' == c) ≡ false
      → db.documents (db.update_one c f u upsert w).1 c' ≡ db.documents w c'

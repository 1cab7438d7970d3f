-- ===== src/Mongo/Memory.antt =====
-- A database in memory that obeys the driver's laws: it shows that they can be met, and runs the
-- examples. Collections named in `down` answer every write with an error.
pub mod Writes
pub mod Reads
use food_delivery_analytics.Prelude.{
  String, Bool, true, false, ◌&&◌, List, [], ◌∷◌, ◌++◌, Option, none, some, ◌+◌, ◌==◌, text_leb,
  if◌then◌else◌,
}
use food_delivery_analytics.Prelude.Int.{ℤ, pos}
use food_delivery_analytics.Effect.{Action, Result, ok, err, duplicate_key, other_fault}
use food_delivery_analytics.Mongo.Document.{
  Time, Document, Filter, Update, Value, int, text, moment, equals, matches, select, any_match,
  apply_update, upsert_document,
}
use food_delivery_analytics.Mongo.Driver.{Driver}

pub record Memory : Type 0 where
  pub time : Time
  pub stored : String → List Document
  pub down : String → Bool

-- The unique single-field indexes.
abbrev pub unique_field : String → Option String
unique_field c = if c == "event_ids" then some "event_id" else none

abbrev pub store : String → List Document → Memory → Memory
store c ds m = record m { stored = λ c'. if c' == c then ds else m.stored c' }

-- Updates the first match.
abbrev pub update_first : Filter → Update → List Document → List Document
update_first f u [] = []
update_first f u (d ∷ ds) =
    let rest = update_first f u ds in if matches f d then apply_update u d ∷ ds else d ∷ rest

abbrev pub updated : Filter → Update → Bool → List Document → List Document
updated f u upsert ds =
    if any_match f ds
    then update_first f u ds
    else if upsert
    then ds ++ upsert_document f u ∷ []
    else ds

abbrev pub update_one : String → Filter → Update → Bool → Action Memory (Unit {0})
update_one c f u upsert m =
    if m.down c
    then (err (other_fault "unreachable"), m)
    else (ok tt, store c (updated f u upsert (m.stored c)) m)

abbrev pub clashes : Option String → Document → List Document → Bool
clashes none d ds = false
clashes (some k) d ds = elim (d k) [ none ↦ false | some v ↦ any_match ((k, equals v) ∷ []) ds ]

abbrev pub insert_one : String → Document → Action Memory (Unit {0})
insert_one c d m =
    if m.down c
    then (err (other_fault "unreachable"), m)
    else if clashes (unique_field c) d (m.stored c)
    then (err duplicate_key, m)
    else (ok tt, store c (d ∷ m.stored c) m)

abbrev pub before_in : String → Document → Document → Bool
before_in k d e = elim (d k) [
  | some (text s) ↦ elim (e k) [ some (text t) ↦ text_leb s t | _ ↦ true ]
  | _ ↦ true
]

abbrev pub insert_sorted : String → Document → List Document → List Document
insert_sorted k d [] = d ∷ []
insert_sorted k d (e ∷ ds) =
    let rest = insert_sorted k d ds in if before_in k d e then d ∷ e ∷ ds else e ∷ rest

abbrev pub sort_by : List String → List Document → List Document
sort_by [] ds = ds
sort_by (k ∷ ks) [] = []
sort_by (k ∷ ks) (d ∷ ds) = insert_sorted k d (sort_by (k ∷ ks) ds)

abbrev pub memory : Driver Memory
memory = record {
  now = λ m. (m.time, record m { time = m.time + 1 });
  update_one = update_one;
  find = λ c f ks m. (ok (sort_by ks (select f (m.stored c))), m);
  decode_int = λ v. elim v [
    | none ↦ ok (pos 0)
    | some (int n) ↦ ok n
    | _ ↦ err (other_fault "not a number")
  ];
  decode_text =
      λ v. elim v [ none ↦ ok "" | some (text s) ↦ ok s | _ ↦ err (other_fault "not a string") ];
  decode_moment =
      λ v. elim v [ none ↦ ok 0 | some (moment t) ↦ ok t | _ ↦ err (other_fault "not a date") ];
  insert_one = insert_one;
  documents = λ m c. m.stored c;
}

-- A database with nothing in it, and every collection up.
abbrev pub blank : Memory
blank = record { time = 0; stored = λ c. []; down = λ c. false }

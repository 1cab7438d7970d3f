-- ===== src/Mongo/Memory/Writes.antt =====
-- The database in memory obeys the laws of writing and of its unique index.
use food_delivery_analytics.Prelude.{
  String, false, ◌≡◌, refl, ap, sym, Bool, true, List, [], ◌∷◌, arith, Bool-cases, inl, inr, some,
  eq_refl, if◌then◌else◌,
}
use food_delivery_analytics.Effect.{ok, err, duplicate_key, other_fault}
use food_delivery_analytics.Mongo.Document.{
  Filter, Update, Document, Value, equals, matches, any_match,
}
use food_delivery_analytics.Mongo.Driver.{
  WriteLaws, UniqueIndex, Updated, replaced, inserted, unmatched, inserted_at,
}
use food_delivery_analytics.Mongo.Up.{StaysUp}
use food_delivery_analytics.Mongo.Memory.{
  unique_field, update_first, updated, memory, Memory, insert_one, store, clashes,
}
use mathlib.Core.List.{append-nil}

update_first-Updated :
    (f : Filter) (u : Update) (upsert : Bool) (ds : List Document)
    → any_match f ds ≡ true
    → Updated f u upsert ds (update_first f u ds)
update_first-Updated f u upsert [] h = cc
update_first-Updated f u upsert (d ∷ ds) h = elim (Bool-cases (matches f d)) [
  | inl hit ↦ rw hit (replaced [] d ds refl hit refl)
  | inr miss ↦
      let some_hit : any_match f ds ≡ true = ground arith in
      rw miss (behind some_hit (update_first-Updated f u upsert ds some_hit))
]
  where
    behind :
        any_match f ds ≡ true
        → Updated f u upsert ds (update_first f u ds)
        → Updated f u upsert (d ∷ ds) (d ∷ update_first f u ds)
    behind some_hit (replaced before e after p hit q) =
        replaced (d ∷ before) e after (ap (λ l. d ∷ l) p) hit (ap (λ l. d ∷ l) q)
    behind some_hit (inserted before after none_hit up p q) = absurd (ground arith)
    behind some_hit (unmatched none_hit up p) = absurd (ground arith)

updated-Updated :
    (f : Filter) (u : Update) (upsert : Bool) (ds : List Document)
    → Updated f u upsert ds (updated f u upsert ds)
updated-Updated f u upsert ds = elim (Bool-cases (any_match f ds)) [
  | inl hit ↦ rw hit (update_first-Updated f u upsert ds hit)
  | inr miss ↦ elim (Bool-cases upsert) [
    | inl up ↦ rw (miss, up) (inserted ds [] miss refl (sym (append-nil ds)) refl)
    | inr plain ↦ rw (miss, plain) (unmatched miss refl refl)
  ]
]

pub memory-WriteLaws : WriteLaws memory
memory-WriteLaws = record {
  now_documents = λ w c. refl;
  update_one_updates = λ c f u upsert w h. elim (Bool-cases (w.down c)) [
    | inl down ↦ absurd (cc (rw down at h))
    | inr running ↦ rw (running, eq_refl c) (updated-Updated f u upsert (w.stored c))
  ];
  update_one_frame = λ c c' f u upsert w h. ground arith;
}

insert_one_outcome :
    (d : Document) (v : Value) (w : Memory)
    → d "event_id" ≡ some v
    → insert_one "event_ids" d w ≡ (
        if w.down "event_ids"
        then (err (other_fault "unreachable"), w)
        else if any_match (("event_id", equals v) ∷ []) (w.stored "event_ids")
        then (err duplicate_key, w)
        else (ok tt, store "event_ids" (d ∷ w.stored "event_ids") w))
insert_one_outcome d v w e = rw e

-- The index of `event_ids`.
pub memory-UniqueIndex : UniqueIndex memory "event_ids" "event_id"
memory-UniqueIndex = record {
  insert_one_inserts = λ d v w e h.
      let outcome = insert_one_outcome d v w e in
      (ground arith, inserted_at [] (w.stored "event_ids") refl (ground arith));
  insert_one_duplicate =
      λ d v w e h. let outcome = insert_one_outcome d v w e in (ground arith, ground arith);
  insert_one_outcome = λ d w. elim (Bool-cases (w.down "event_ids")) [
    | inl down ↦ rw down (inl refl)
    | inr running ↦ elim (Bool-cases (clashes (some "event_id") d (w.stored "event_ids"))) [
      | inl taken ↦ rw (running, taken) (inl refl)
      | inr free ↦ rw (running, free) (inr (inserted_at [] (w.stored "event_ids") refl refl))
    ]
  ];
  insert_one_frame = λ d w c' h. ground arith;
}

-- Every collection is up.
abbrev pub AllUp : Memory → Type 0
AllUp m = (c : String) → m.down c ≡ false

pub memory-StaysUp : StaysUp memory AllUp
memory-StaysUp = record {
  now_up = λ w up. up;
  update_one_up = λ c f u upsert w up. rw (up c) (refl, up);
  insert_one_up = λ c d w up. elim (Bool-cases (clashes (unique_field c) d (w.stored c))) [
    | inl taken ↦ rw (up c, taken) (inr refl, up)
    | inr free ↦ rw (up c, free) (inl refl, up)
  ];
}

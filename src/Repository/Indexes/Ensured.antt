-- ===== src/Repository/Indexes/Ensured.antt =====
-- The rows that the repositories look for are unique by the indexes of indexes.go.
use mathlib.Core.List.{Memᴰ}
use food_delivery_analytics.Prelude.{String, ◌≡◌, refl, sym, ◌∙◌, ap, true, List, [], ◌∷◌}
use food_delivery_analytics.Prelude.Int.{ℤ, pos}
use food_delivery_analytics.Effect.{Action, ok, bind-eq-ok}
use food_delivery_analytics.Mongo.Document.{int, text, equals}
use food_delivery_analytics.Mongo.Driver.{Driver}
use food_delivery_analytics.Repository.Indexes.Unique.{IsUnique, AtMostOne, IsUnique-AtMostOne}
use food_delivery_analytics.Analytics.Enums.{
  collection_agg_restaurant_day, collection_agg_branch_day, collection_agg_platform_day,
  collection_agg_product_day, collection_event_ids,
}
use food_delivery_analytics.Repository.RestaurantDay
use food_delivery_analytics.Repository.BranchDay
use food_delivery_analytics.Repository.PlatformDay
use food_delivery_analytics.Repository.ProductDay
use food_delivery_analytics.Repository.Indexes.{
  IndexModel, agg_indexes, branch_indexes, platform_indexes, product_indexes, event_indexes,
  ensure_indexes,
}

module _ {W : Type 0} (db : Driver W) (create_many : String → List IndexModel → Action W (Unit {0}))
    (Installed : W → String → IndexModel → Type 0) where
  -- The documented laws: a call that succeeds has installed each index, no call removes one, and
  -- a unique index that is installed is enforced.
  pub record IndexLaws : Type 0 where
    pub installs :
        (c : String) (models : List IndexModel) (model : IndexModel) (w : W)
        → (create_many c models w).0 ≡ ok tt
        → Memᴰ model models
        → Installed (create_many c models w).1 c model
    pub stays :
        (c c' : String) (models : List IndexModel) (model : IndexModel) (w : W)
        → Installed w c' model
        → Installed (create_many c models w).1 c' model
    pub enforced :
        (c : String) (model : IndexModel) (w : W)
        → Installed w c model
        → model.unique ≡ true
        → IsUnique model.keys (db.documents w c)

  abbrev Each : W → String → List IndexModel → Type 0
  Each w c [] = Unit {0}
  Each w c (model ∷ models) = Installed w c model × Each w c models

  -- Every index of the service is there.
  abbrev AreInstalled : W → Type 0
  AreInstalled w =
      Each w collection_agg_restaurant_day agg_indexes
      × Each w collection_agg_branch_day branch_indexes
      × Each w collection_agg_platform_day platform_indexes
      × Each w collection_agg_product_day product_indexes
      × Each w collection_event_ids event_indexes

  -- The rows that are looked for by a key, in each collection, are one at most.
  abbrev pub KeysAreUnique : W → Type 0
  KeysAreUnique w =
      ((id : ℤ) (date : String)
        → AtMostOne (RestaurantDay.key_filter id date)
            (db.documents w collection_agg_restaurant_day))
      × ((id : ℤ) (date : String)
          → AtMostOne (BranchDay.key_filter id date) (db.documents w collection_agg_branch_day))
      × ((date currency : String)
          → AtMostOne (PlatformDay.key_filter date currency)
              (db.documents w collection_agg_platform_day))
      × ((id restaurant : ℤ) (date : String)
          → AtMostOne (ProductDay.key_filter id restaurant date)
              (db.documents w collection_agg_product_day))
      × ((id : String)
          → AtMostOne (("event_id", equals (text id)) ∷ []) (db.documents w collection_event_ids))

  Each-every :
      (w : W) (c : String) (models : List IndexModel)
      → ((model : IndexModel) → Memᴰ model models → Installed w c model)
      → Each w c models
  Each-every w c [] h = tt
  Each-every w c (model ∷ models) h =
      (h model (Memᴰ.head refl), Each-every w c models λ m i. h m (Memᴰ.tail i))

  Each-kept :
      (w v : W) (c : String) (models : List IndexModel)
      → ((model : IndexModel) → Installed w c model → Installed v c model)
      → Each w c models
      → Each v c models
  Each-kept w v c [] h each = tt
  Each-kept w v c (model ∷ models) h (here, rest) = (h model here, Each-kept w v c models h rest)

  module _ (laws : IndexLaws) where
    created :
        (c : String) (models : List IndexModel) (w : W)
        → (create_many c models w).0 ≡ ok tt
        → Each (create_many c models w).1 c models
    created c models w h = Each-every _ c models λ model i. laws.installs c models model w h i

    kept :
        (c c' : String) (models models' : List IndexModel) (w : W)
        → Each w c' models'
        → Each (create_many c models w).1 c' models'
    kept c c' models models' w =
        Each-kept w (create_many c models w).1 c' models'
          λ model i. laws.stays c c' models model w i

    ensure_indexes_installs :
        (w : W)
        → (ensure_indexes create_many w).0 ≡ ok tt
        → AreInstalled (ensure_indexes create_many w).1
    unfolding ensure_indexes
    ensure_indexes_installs w h =
        let r = collection_agg_restaurant_day in
        let b = collection_agg_branch_day in
        let p = collection_agg_platform_day in
        let q = collection_agg_product_day in
        let e = collection_event_ids in
        let w1 = (create_many r agg_indexes w).1 in
        let w2 = (create_many b branch_indexes w1).1 in
        let w3 = (create_many p platform_indexes w2).1 in
        let w4 = (create_many q product_indexes w3).1 in
        let (t1, ok1, e1) = bind-eq-ok (create_many r agg_indexes) _ w h in
        let h1 = sym (ap (λ x. x.0) e1) ∙ h in
        let (t2, ok2, e2) = bind-eq-ok (create_many b branch_indexes) _ w1 h1 in
        let h2 = sym (ap (λ x. x.0) e2) ∙ h1 in
        let (t3, ok3, e3) = bind-eq-ok (create_many p platform_indexes) _ w2 h2 in
        let h3 = sym (ap (λ x. x.0) e3) ∙ h2 in
        let (t4, ok4, e4) = bind-eq-ok (create_many q product_indexes) _ w3 h3 in
        let h4 = sym (ap (λ x. x.0) e4) ∙ h3 in
        let same : (ensure_indexes create_many w) ≡ create_many e event_indexes w4 =
          e1 ∙ e2 ∙ e3 ∙ e4 in
        rw same (
          kept e r event_indexes agg_indexes w4 (
              kept q r product_indexes agg_indexes w3 (
                kept p r platform_indexes agg_indexes w2
                  (kept b r branch_indexes agg_indexes w1 (created r agg_indexes w ok1)))),
          kept e b event_indexes branch_indexes w4 (
              kept q b product_indexes branch_indexes w3
                (kept p b platform_indexes branch_indexes w2 (created b branch_indexes w1 ok2))),
          kept e p event_indexes platform_indexes w4
              (kept q p product_indexes platform_indexes w3 (created p platform_indexes w2 ok3)),
          kept e q event_indexes product_indexes w4 (created q product_indexes w3 ok4),
          created e event_indexes w4 h4,
        )

    AreInstalled-KeysAreUnique : (v : W) → AreInstalled v → KeysAreUnique v
    AreInstalled-KeysAreUnique v ((r, r'), (b, b'), (p, p'), (q, q'), (e, e')) = (
      λ id date.
          IsUnique-AtMostOne (("restaurant_id", pos 1, int id) ∷ ("date", pos 1, text date) ∷ [])
            (db.documents v collection_agg_restaurant_day) (laws.enforced _ _ v r refl),
      λ id date.
          IsUnique-AtMostOne (("branch_id", pos 1, int id) ∷ ("date", pos 1, text date) ∷ [])
            (db.documents v collection_agg_branch_day) (laws.enforced _ _ v b refl),
      λ date currency.
          IsUnique-AtMostOne (("date", pos 1, text date) ∷ ("currency", pos 1, text currency) ∷ [])
            (db.documents v collection_agg_platform_day) (laws.enforced _ _ v p refl),
      λ id restaurant date.
          IsUnique-AtMostOne
            (("product_id", pos 1, int id)
              ∷ ("restaurant_id", pos 1, int restaurant)
              ∷ ("date", pos 1, text date)
              ∷ [])
            (db.documents v collection_agg_product_day) (laws.enforced _ _ v q refl),
      λ id.
          IsUnique-AtMostOne (("event_id", pos 1, text id) ∷ [])
            (db.documents v collection_event_ids) (laws.enforced _ _ v e refl),
    )

    -- After the indexes have been made without an error, and as long as none of them is removed, at
    -- most one row matches the key by which a repository upserts a restaurant's, a branch's, the
    -- platform's or a product's day, and at most one record holds an event's id.
    pub ensure_indexes-KeysAreUnique :
        (w v : W)
        → (ensure_indexes create_many w).0 ≡ ok tt
        → ((c : String) (model : IndexModel)
            → Installed (ensure_indexes create_many w).1 c model
            → Installed v c model)
        → KeysAreUnique v
    ensure_indexes-KeysAreUnique w v h still =
        let (r, b, p, q, e) = ensure_indexes_installs w h in
        let w' = (ensure_indexes create_many w).1 in
        AreInstalled-KeysAreUnique v (
          Each-kept w' v collection_agg_restaurant_day agg_indexes
              (still collection_agg_restaurant_day) r,
          Each-kept w' v collection_agg_branch_day branch_indexes (still collection_agg_branch_day)
              b,
          Each-kept w' v collection_agg_platform_day platform_indexes
              (still collection_agg_platform_day) p,
          Each-kept w' v collection_agg_product_day product_indexes
              (still collection_agg_product_day) q,
          Each-kept w' v collection_event_ids event_indexes (still collection_event_ids) e,
        )

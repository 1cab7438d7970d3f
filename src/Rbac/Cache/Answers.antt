-- ===== src/Rbac/Cache/Answers.antt =====
-- What the permission cache of lib/rbac/cache.go answers and keeps.
use food_delivery_analytics.Prelude.{
  ◌+◌, ◌≤◌, ◌<◌, arith, ℕ, String, ◌≡◌, refl, ◌⊎◌, inl, inr, false, Option, none, some, List, ◌==◌,
  eq_refl, Bool-cases,
}
use food_delivery_analytics.Effect.{Action, Result, ok, err}
use food_delivery_analytics.Mongo.Document.{Time}
use food_delivery_analytics.Rbac.Cache.{
  CacheEntry, PermissionCache, invalidate, is_fresh, keep_answer, refresh, answer_from,
  get_permissions,
}

module _ {W : Type 0} (now : W → Time × W) (get_role_permissions : String → Action W (List String))
    (ttl : ℕ) where
  -- The client answered in a world, and the answer was kept with the time after it.
  abbrev pub Fetched : String → W → CacheEntry → Type 0
  Fetched role w entry =
      ((get_role_permissions role w).0 ≡ ok entry.permissions)
      × (entry.cached_at ≡ (now (get_role_permissions role w).1).0)

  -- Where an entry comes from: the client, if there was none or one as old as the time to live or
  -- older; or the cache, if it is younger.
  abbrev pub Source : String → PermissionCache W → CacheEntry → Type 0
  Source role pc entry =
      ((pc.cache role ≡ none) × Fetched role pc.world entry)
      ⊎ ((old : CacheEntry) × (pc.cache role ≡ some old)
          × (old.cached_at + ttl ≤ (now pc.world).0)
          × Fetched role (now pc.world).1 entry)
      ⊎ ((pc.cache role ≡ some entry) × ((now pc.world).0 < entry.cached_at + ttl))

  abbrev pub IsSourced : String → PermissionCache W → List String → Type 0
  IsSourced role pc perms =
      (entry : CacheEntry) × (entry.permissions ≡ perms) × Source role pc entry

  -- A cache holds an entry for a role, and is as it was for the others.
  abbrev pub Caches : String → CacheEntry → PermissionCache W → PermissionCache W → Type 0
  Caches role entry before after =
      (after.cache role ≡ some entry)
      × ((k : String) → (k == role) ≡ false → after.cache k ≡ before.cache k)

  keep_answer-ok :
      (role : String) (r : Result (List String)) (pc : PermissionCache W) (perms : List String)
      → (keep_answer now get_role_permissions ttl role r pc).0 ≡ ok perms
      → (r ≡ ok perms)
        × Caches role
            (record { permissions = perms; cached_at = (now pc.world).0 })
            pc
            (keep_answer now get_role_permissions ttl role r pc).1
  keep_answer-ok role (err e) pc perms h = cc h
  keep_answer-ok role (ok found) pc perms h =
      let same : found ≡ perms = cc h in
      (h, (rw (eq_refl role, same) refl, λ k other. rw other refl))

  refresh-ok :
      (role : String) (pc : PermissionCache W) (perms : List String)
      → (refresh now get_role_permissions ttl role pc).0 ≡ ok perms
      → (entry : CacheEntry) × (entry.permissions ≡ perms)
        × Fetched role pc.world entry
        × Caches role entry pc (refresh now get_role_permissions ttl role pc).1
  refresh-ok role pc perms h =
      let w = (get_role_permissions role pc.world).1 in
      let (asked, cached) =
        keep_answer-ok role (get_role_permissions role pc.world).0 (record pc { world = w }) perms
          h in
      (record { permissions = perms; cached_at = (now w).0 }, refl, (asked, refl), cached)

  answer_from-ok :
      (role : String) (o : Option CacheEntry) (pc : PermissionCache W) (perms : List String)
      → pc.cache role ≡ o
      → (answer_from now get_role_permissions ttl role o pc).0 ≡ ok perms
      → (entry : CacheEntry) × (entry.permissions ≡ perms)
        × Source role pc entry
        × Caches role entry pc (answer_from now get_role_permissions ttl role o pc).1
  answer_from-ok role none pc perms held h =
      let (entry, same, fetched, cached) = refresh-ok role pc perms h in
      (entry, same, inl (held, fetched), cached)
  answer_from-ok role (some entry) pc perms held h =
      elim (Bool-cases (is_fresh ttl (now pc.world).0 entry)) [
        | inl fresh ↦
            let answered : ok entry.permissions ≡ ok perms = rw fresh at h in
            rw fresh (entry, cc answered, inr (inr (held, ground arith)), (held, λ k other. refl))
        | inr stale ↦
            let pc' = record pc { world = (now pc.world).1 } in
            let (entry', same, fetched, cached) = refresh-ok role pc' perms (rw stale at h) in
            rw stale (entry', same, inr (inl (entry, held, ground arith, fetched)), cached)
      ]

  -- An answer is the client's if the role has no entry or one as old as the time to live, and else
  -- that of its entry; afterwards the role has the entry that was answered, with the time after the
  -- client's answer if that was asked, and the entries of other roles are as they were.
  pub get_permissions_sound :
      (role : String) (pc : PermissionCache W) (perms : List String)
      → (get_permissions now get_role_permissions ttl role pc).0 ≡ ok perms
      → (entry : CacheEntry) × (entry.permissions ≡ perms)
        × Source role pc entry
        × Caches role entry pc (get_permissions now get_role_permissions ttl role pc).1
  unfolding get_permissions
  get_permissions_sound role pc perms h = answer_from-ok role (pc.cache role) pc perms refl h

  keep_answer_result :
      (role : String) (r : Result (List String)) (pc : PermissionCache W)
      → (keep_answer now get_role_permissions ttl role r pc).0 ≡ r
  keep_answer_result role (ok perms) pc = refl
  keep_answer_result role (err e) pc = refl

  -- After an invalidation, the next call for the role answers what the client does, also an error.
  pub get_permissions-invalidate :
      (role : String) (pc : PermissionCache W)
      → (get_permissions now get_role_permissions ttl role (invalidate role pc)).0
        ≡ (get_role_permissions role pc.world).0
  unfolding get_permissions invalidate
  get_permissions-invalidate role pc = rw (eq_refl role) (
      keep_answer_result role (get_role_permissions role pc.world).0
        (record (invalidate role pc) { world = (get_role_permissions role pc.world).1 }))

  -- A role without an entry is asked for.
  pub get_permissions_missing :
      (role : String) (pc : PermissionCache W)
      → pc.cache role ≡ none
      → (get_permissions now get_role_permissions ttl role pc).0
        ≡ (get_role_permissions role pc.world).0
  unfolding get_permissions
  get_permissions_missing role pc gone = rw gone (
      keep_answer_result role (get_role_permissions role pc.world).0
        (record pc { world = (get_role_permissions role pc.world).1 }))

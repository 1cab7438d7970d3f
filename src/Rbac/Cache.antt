-- ===== src/Rbac/Cache.antt =====
-- lib/rbac/cache.go. The clock and the client of the core service, lib/coreclient/client.go, are
-- the section's parameters. The locks guard single reads and writes of the map, one call at a time.
pub mod Answers
use food_delivery_analytics.Prelude.{
  ℕ, String, ◌+◌, Bool, true, false, Option, none, some, List, [], ◌∷◌, ◌==◌, ltb, if◌then◌else◌,
}
use food_delivery_analytics.Effect.{Action, Result, ok, err}
use food_delivery_analytics.Mongo.Document.{Time}

pub record CacheEntry : Type 0 where
  pub permissions : List String
  pub cached_at : Time

-- The outside world and the map of the cache.
pub record PermissionCache (W : Type 0) : Type 0 where
  pub world : W
  pub cache : String → Option CacheEntry

module _ {W : Type 0} where
  abbrev pub new_permission_cache : W → PermissionCache W
  new_permission_cache w = record { world = w; cache = λ _. none }

  abbrev pub store_entry : String → CacheEntry → PermissionCache W → PermissionCache W
  store_entry role_name entry pc = record pc {
    cache = λ k. if k == role_name then some entry else pc.cache k;
  }

  unfoldable pub invalidate : String → PermissionCache W → PermissionCache W
  invalidate role_name pc = record pc { cache = λ k. if k == role_name then none else pc.cache k }

abbrev pub has_permission : List String → String → Bool
has_permission [] perm = false
has_permission (p ∷ permissions) perm = if p == perm then true else has_permission permissions perm

-- `time.Since(entry.cachedAt) < pc.ttl`, as a sum, since the clock may have been set back.
abbrev pub is_fresh : ℕ → Time → CacheEntry → Bool
is_fresh ttl now entry = ltb now (entry.cached_at + ttl)

module _ {W : Type 0} (now : W → Time × W) (get_role_permissions : String → Action W (List String))
    (ttl : ℕ) where
  -- what the client answered, kept with the time
  abbrev pub keep_answer : String → Result (List String) → Action (PermissionCache W) (List String)
  keep_answer role_name (err e) pc = (err e, pc)
  keep_answer role_name (ok perms) pc =
      let (t, w) = now pc.world in
      (
        ok perms,
        store_entry role_name (record { permissions = perms; cached_at = t })
            (record pc { world = w }),
      )

  abbrev pub refresh : String → Action (PermissionCache W) (List String)
  refresh role_name pc =
      let (r, w) = get_role_permissions role_name pc.world in
      keep_answer role_name r (record pc { world = w })

  -- by the entry that was found for the role
  abbrev pub answer_from : String → Option CacheEntry → Action (PermissionCache W) (List String)
  answer_from role_name none pc = refresh role_name pc
  answer_from role_name (some entry) pc =
      let (t, w) = now pc.world in
      if is_fresh ttl t entry
      then (ok entry.permissions, record pc { world = w })
      else refresh role_name (record pc { world = w })

  unfoldable pub get_permissions : String → Action (PermissionCache W) (List String)
  get_permissions role_name pc = answer_from role_name (pc.cache role_name) pc

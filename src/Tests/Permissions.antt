-- ===== src/Tests/Permissions.antt =====
-- The permission cache and the check of a request, with a client that knows one role.
use food_delivery_analytics.Prelude.{
  ℕ, String, ◌≡◌, refl, ◌↔◌, ◌+◌, none, some, List, [], ◌∷◌, ◌==◌, if◌then◌else◌,
}
use food_delivery_analytics.Prelude.Int.{pos}
use food_delivery_analytics.Effect.{Action, ok, err, other_fault}
use food_delivery_analytics.Mongo.Document.{Time}
use food_delivery_analytics.Rbac.Cache.{
  CacheEntry, PermissionCache, new_permission_cache, invalidate, get_permissions,
}
use food_delivery_analytics.Rbac.Cache.Answers.{
  Source, Caches, get_permissions_sound, get_permissions-invalidate,
}
use food_delivery_analytics.Rbac.Require.{Claims, serve_next, require}
use food_delivery_analytics.Rbac.Require.Verdicts.{Grants, require_serves}

-- The world is its clock.
abbrev pub tick : ℕ → Time × ℕ
tick n = (n, n + 1)

abbrev pub analyst_permissions : List String
analyst_permissions = "analytics:read" ∷ []

abbrev pub client : String → Action ℕ (List String)
client role n =
    if role == "analyst" then (ok analyst_permissions, n) else (err (other_fault "unknown role"), n)

abbrev cold : PermissionCache ℕ
cold = new_permission_cache 5

abbrev pub analyst : Claims
analyst = record {
  user_id = pos 1;
  role = "analyst";
  country_code = "EG";
  restaurant_id = none;
  restaurant_role = none;
  branch_ids = [];
}

get_permissions_sound_example :
    (entry : CacheEntry) × (entry.permissions ≡ analyst_permissions)
    × Source tick client 60 "analyst" cold entry
    × Caches tick client 60 "analyst" entry cold (get_permissions tick client 60 "analyst" cold).1
unfolding get_permissions
get_permissions_sound_example =
    get_permissions_sound tick client 60 "analyst" cold analyst_permissions refl

get_permissions-invalidate_example :
    (get_permissions tick client 60 "analyst" (invalidate "analyst" cold)).0
    ≡ (client "analyst" cold.world).0
get_permissions-invalidate_example = get_permissions-invalidate tick client 60 "analyst" cold

require_serves_example :
    ((require (get_permissions tick client 60) "analytics:read" (some analyst) cold).0 ≡ serve_next)
    ↔ ((c : Claims) × (some analyst ≡ some c)
        × Grants (get_permissions tick client 60) "analytics:read" c cold)
require_serves_example =
    require_serves (get_permissions tick client 60) "analytics:read" (some analyst) cold

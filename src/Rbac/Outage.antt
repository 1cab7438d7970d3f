-- ===== src/Rbac/Outage.antt =====
-- lib/rbac over lib/coreclient while the core service is down.
use mathlib.Core.List.{Memᴰ}
use food_delivery_analytics.Analytics.Errors.{err_forbidden}
use food_delivery_analytics.Http.{ErrorBody, failure}
use food_delivery_analytics.Rbac.Require.Verdicts.{
  HasRole, HasRole-role_name_of, has_permission-Memᴰ, Memᴰ-has_permission,
}
use food_delivery_analytics.Prelude.{
  true, false, sym, ◌∙◌, ◌⊎◌, ◌+◌, ◌≤◌, ◌<◌, arith, ℕ, String, ◌≡◌, refl, Option, none, some, List,
  ◌==◌, Bool-cases, inl, inr,
}
use food_delivery_analytics.Effect.{Action, Fault, Result, ok, err}
use food_delivery_analytics.Mongo.Document.{Time}
use food_delivery_analytics.HttpClient.{Client, Transport, ApiResponse}
use food_delivery_analytics.HttpClient.Attempts.{StaysDown, Fails, get-Fails}
use food_delivery_analytics.CoreClient.{PermResponse, permissions_of, get_role_permissions}
use food_delivery_analytics.Rbac.Cache.{
  CacheEntry, PermissionCache, has_permission, is_fresh, refresh, keep_answer, answer_from,
  get_permissions,
}
use food_delivery_analytics.Rbac.Require.{serve_next, refused, Claims, Verdict, judge, require}

-- There is no entry, or it is as old as the time to live.
abbrev pub NotFresh : ℕ → Time → Option CacheEntry → Type 0
NotFresh ttl t o =
    (o ≡ none) ⊎ ((entry : CacheEntry) × (o ≡ some entry) × (entry.cached_at + ttl ≤ t))

abbrev pub AnsweredWith : ℕ → Verdict → Type 0
AnsweredWith status v = (body : ErrorBody) × (v ≡ refused (failure status body))

-- By an entry's permissions: on to the handler with the one that is asked for, status 403 without.
abbrev pub ByEntry : String → CacheEntry → Verdict → Type 0
ByEntry perm entry v =
    (Memᴰ perm entry.permissions × (v ≡ serve_next))
    ⊎ ((¬ Memᴰ perm entry.permissions) × AnsweredWith 403 v)

-- By an entry that is younger than the time to live; status 500 without one.
abbrev pub DecidedByCache : String → ℕ → Time → Option CacheEntry → Verdict → Type 0
DecidedByCache perm ttl t o v =
    ((entry : CacheEntry) × (o ≡ some entry) × (t < entry.cached_at + ttl) × ByEntry perm entry v)
    ⊎ (NotFresh ttl t o × AnsweredWith 500 v)

judge-ByEntry :
    (perm : String) (entry : CacheEntry) → ByEntry perm entry (judge perm (ok entry.permissions))
judge-ByEntry perm entry = elim (Bool-cases (has_permission entry.permissions perm)) [
  | inl held ↦ inl (has_permission-Memᴰ entry.permissions perm held, rw held refl)
  | inr missing ↦ inr (
    (λ m.
        let held = Memᴰ-has_permission entry.permissions perm m in
        let clash : true ≡ false = sym held ∙ missing in cc clash),
    (record { code = err_forbidden.code; message = err_forbidden.message }, rw missing refl),
  )
]

permissions_of-err :
    (r : Result PermResponse) (e : Fault) → r ≡ err e → (e' : Fault) × (permissions_of r ≡ err e')
permissions_of-err (ok response) e h = cc h
permissions_of-err (err e') e h = (_, refl)

module _ {W : Type 0} (t : Transport W) (query_escape : String → String)
    (unmarshal : String → Result (ApiResponse PermResponse)) (c : Client) (now : W → Time × W)
    (ttl : ℕ) (Down : W → Type 0) (downs : StaysDown t unmarshal Down)
    (ticks : (w : W) → Down w → Down (now w).1) where
  abbrev client : String → Action W (List String)
  client = get_role_permissions t query_escape unmarshal c

  abbrev permissions_lookup : String → Action (PermissionCache W) (List String)
  permissions_lookup = get_permissions now client ttl

  client-Fails : (role : String) (w : W) → Down w → Fails t unmarshal Down downs (client role w)
  unfolding get_role_permissions
  client-Fails role w h =
      let ((e, failed), h') = get-Fails t unmarshal Down downs c _ _ w h in
      (permissions_of-err _ e failed, h')

  -- What a lookup leaves behind: the entries are as they were, and the service is still down.
  abbrev pub Keeps : PermissionCache W → PermissionCache W → Type 0
  Keeps before after = (after.cache ≡ before.cache) × Down after.world

  keep_answer_down :
      (perm role : String) (r : Result (List String)) (e : Fault) (pc : PermissionCache W)
      → r ≡ err e
      → Down pc.world
      → AnsweredWith 500 (judge perm (keep_answer now client ttl role r pc).0)
        × Keeps pc (keep_answer now client ttl role r pc).1
  keep_answer_down perm role (ok perms) e pc same h = cc same
  keep_answer_down perm role (err e') e pc same h = ((_, refl), (refl, h))

  refresh_down :
      (perm role : String) (pc : PermissionCache W)
      → Down pc.world
      → AnsweredWith 500 (judge perm (refresh now client ttl role pc).0)
        × Keeps pc (refresh now client ttl role pc).1
  refresh_down perm role pc h =
      let ((e, failed), h') = client-Fails role pc.world h in
      keep_answer_down perm role (client role pc.world).0 e
        (record pc { world = (client role pc.world).1 }) failed h'

  answer_down :
      (perm role : String) (o : Option CacheEntry) (pc : PermissionCache W)
      → Down pc.world
      → DecidedByCache perm ttl
          (now pc.world).0
          o
          (judge perm (answer_from now client ttl role o pc).0)
        × Keeps pc (answer_from now client ttl role o pc).1
  answer_down perm role none pc h =
      let (failed, kept) = refresh_down perm role pc h in (inr (inl refl, failed), kept)
  answer_down perm role (some entry) pc h =
      elim (Bool-cases (is_fresh ttl (now pc.world).0 entry)) [
        | inl fresh ↦
            rw fresh
              (inl (entry, refl, ground arith, judge-ByEntry perm entry), (refl, ticks pc.world h))
        | inr stale ↦
            let (failed, kept) =
              refresh_down perm role (record pc { world = (now pc.world).1 }) (ticks pc.world h) in
            rw stale (inr (inr (entry, refl, ground arith), failed), kept)
      ]

  -- While the core service is down, a request that is not the administrator's is decided by the
  -- cached entry of its role if that is younger than the time to live: it goes on if the entry has
  -- the permission, and is answered with status 403 if not. Without such an entry it is answered
  -- with status 500. No entry is added or dropped.
  pub require_during_outage :
      (perm role : String) (claims : Claims) (pc : PermissionCache W)
      → (claims.role == "system_admin") ≡ false
      → HasRole claims role
      → Down pc.world
      → DecidedByCache perm ttl
          (now pc.world).0
          (pc.cache role)
          (require permissions_lookup perm (some claims) pc).0
        × Keeps pc (require permissions_lookup perm (some claims) pc).1
  unfolding require get_permissions
  require_during_outage perm role claims pc other has h =
      rw (other, HasRole-role_name_of claims role has) (answer_down perm role (pc.cache role) pc h)

-- ===== src/Rbac/Require/Verdicts.antt =====
-- Which requests lib/rbac/middleware.go lets through.
use mathlib.Core.List.{Memᴰ}
use food_delivery_analytics.Prelude.{
  sym, ap, ◌∙◌, [], ◌∷◌, eq_iff, Option-cases, String, ◌≡◌, refl, ◌⊎◌, inl, inr, ◌↔◌, true, Option,
  none, some, List, ◌==◌, Bool-cases,
}
use food_delivery_analytics.Effect.{Action, Result, ok, err}
use food_delivery_analytics.Rbac.Cache.{PermissionCache, has_permission}
use food_delivery_analytics.Rbac.Require.{Claims, role_name_of, serve_next, judge, require}

-- The role that permissions are looked up for: the one within the restaurant, if there is one.
abbrev pub HasRole : Claims → String → Type 0
HasRole claims role =
    (claims.restaurant_role ≡ some role) ⊎ ((claims.restaurant_role ≡ none) × (claims.role ≡ role))

pub role_name_of-HasRole : (claims : Claims) → HasRole claims (role_name_of claims)
role_name_of-HasRole claims = elim (Option-cases claims.restaurant_role) [
  | inl missing ↦ inr (missing, rw (missing, role_name_of) refl)
  | inr (role, given) ↦ inl (given ∙ ap some (rw (given, role_name_of) refl))
]

pub HasRole-role_name_of :
    (claims : Claims) (role : String) → HasRole claims role → role_name_of claims ≡ role
HasRole-role_name_of claims role (inl given) = rw (given, role_name_of) refl
HasRole-role_name_of claims role (inr (missing, same)) = rw (missing, role_name_of) same

pub has_permission-Memᴰ :
    (perms : List String) (perm : String) → has_permission perms perm ≡ true → Memᴰ perm perms
has_permission-Memᴰ [] perm h = cc h
has_permission-Memᴰ (p ∷ perms) perm h = elim (Bool-cases (p == perm)) [
  | inl same ↦ Memᴰ.head (sym ((eq_iff p perm).0 same))
  | inr other ↦ Memᴰ.tail (has_permission-Memᴰ perms perm (rw other at h))
]

pub Memᴰ-has_permission :
    (perms : List String) (perm : String) → Memᴰ perm perms → has_permission perms perm ≡ true
Memᴰ-has_permission [] perm none_left = elim none_left [ ]
Memᴰ-has_permission (p ∷ perms) perm (Memᴰ.head same) = rw ((eq_iff p perm).1 (sym same)) refl
Memᴰ-has_permission (p ∷ perms) perm (Memᴰ.tail rest) = elim (Bool-cases (p == perm)) [
  | inl same ↦ rw same refl
  | inr other ↦ rw other (Memᴰ-has_permission perms perm rest)
]

module _ {W : Type 0} (get_permissions : String → Action (PermissionCache W) (List String)) where
  -- The claims of a request grant a permission: their role is that of the system's administrator,
  -- or the permissions of the role that they have can be found, and it is one of them.
  abbrev pub Grants : String → Claims → PermissionCache W → Type 0
  Grants perm claims pc =
      (claims.role ≡ "system_admin")
      ⊎ ((role : String) × HasRole claims role
          × ((perms : List String) × ((get_permissions role pc).0 ≡ ok perms) × Memᴰ perm perms))

  judge-serve_next :
      (perm : String) (r : Result (List String))
      → judge perm r ≡ serve_next
      → (perms : List String) × (r ≡ ok perms) × Memᴰ perm perms
  judge-serve_next perm (err e) h = cc h
  judge-serve_next perm (ok perms) h = elim (Bool-cases (has_permission perms perm)) [
    | inl held ↦ (perms, refl, has_permission-Memᴰ perms perm held)
    | inr missing ↦ absurd (cc (rw missing at h))
  ]

  granted :
      (perm : String) (claims : Claims) (pc : PermissionCache W)
      → Grants perm claims pc
      → (require get_permissions perm (some claims) pc).0 ≡ serve_next
  unfolding require
  granted perm claims pc (inl admin) = rw ((eq_iff claims.role "system_admin").1 admin) refl
  granted perm claims pc (inr (role, has, (perms, found, held))) =
      elim (Bool-cases (claims.role == "system_admin")) [
        | inl admin ↦ rw admin refl
        | inr other ↦
            rw
              (
                other,
                HasRole-role_name_of claims role has,
                found,
                Memᴰ-has_permission perms perm held,
              )
              refl
      ]

  -- A request is served exactly if it has claims whose role is that of the system administrator, or
  -- whose role (that in their restaurant, if they have one) has permissions that can be found and
  -- are a list with the required one in it.
  pub require_serves :
      (perm : String) (claims : Option Claims) (pc : PermissionCache W)
      → ((require get_permissions perm claims pc).0 ≡ serve_next)
        ↔ ((c : Claims) × (claims ≡ some c) × Grants perm c pc)
  unfolding require
  require_serves perm none pc = (λ h. cc h, λ (c, e, g). cc e)
  require_serves perm (some claims) pc = (forth, back)
    where
      forth :
          (require get_permissions perm (some claims) pc).0 ≡ serve_next
          → (c : Claims) × (some claims ≡ some c) × Grants perm c pc
      forth h = elim (Bool-cases (claims.role == "system_admin")) [
        | inl admin ↦ (claims, refl, inl ((eq_iff claims.role "system_admin").0 admin))
        | inr other ↦ (
          claims,
          refl,
          inr (
            role_name_of claims,
            role_name_of-HasRole claims,
            judge-serve_next perm _ (rw other at h),
          ),
        )
      ]

      back :
          ((c : Claims) × (some claims ≡ some c) × Grants perm c pc)
          → (require get_permissions perm (some claims) pc).0 ≡ serve_next
      back (c, e, g) = let same : claims ≡ c = cc e in granted perm claims pc (rw same g)

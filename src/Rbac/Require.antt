-- ===== src/Rbac/Require.antt =====
-- lib/rbac/middleware.go: whether a request may go on.
pub mod Verdicts
use food_delivery_analytics.Prelude.{
  ℕ, String, ◌≡◌, Bool, true, false, Option, none, some, List, ◌==◌, if◌then◌else◌,
}
use food_delivery_analytics.Prelude.Int.{ℤ}
use food_delivery_analytics.Effect.{Action, Result, ok, err}
use food_delivery_analytics.Analytics.Errors.{err_unauthenticated, err_forbidden}
use food_delivery_analytics.Http.{Response, send_error}
use food_delivery_analytics.Rbac.Cache.{PermissionCache, has_permission}

-- `Claims` of lib/appcontext/context.go.
pub record Claims : Type 0 where
  pub user_id : ℤ
  pub role : String
  pub country_code : String
  pub restaurant_id : Option ℤ
  pub restaurant_role : Option String
  pub branch_ids : List ℤ

abbrev pub role_name_of : Claims → String
role_name_of claims = elim claims.restaurant_role [ none ↦ claims.role | some role ↦ role ]

-- The request is handed to the next handler, or answered with an error.
pub data Verdict : Type 0 where
  serve_next : Verdict
  refused : Response (Unit {0}) → Verdict

-- What the permissions that were found decide.
abbrev pub judge : String → Result (List String) → Verdict
judge perm (err _) = refused (send_error 500 "RBAC_LOOKUP_FAILED" "Failed to verify permissions")
judge perm (ok permissions) =
    if has_permission permissions perm
    then serve_next
    else refused (send_error err_forbidden.status_code err_forbidden.code err_forbidden.message)

module _ {W : Type 0} (get_permissions : String → Action (PermissionCache W) (List String)) where
  unfoldable pub require : String → Option Claims → PermissionCache W → Verdict × PermissionCache W
  require perm none pc = (
    refused (
        send_error err_unauthenticated.status_code err_unauthenticated.code
          err_unauthenticated.message),
    pc,
  )
  require perm (some claims) pc =
      if claims.role == "system_admin"
      then (serve_next, pc)
      else let (r, pc') = get_permissions (role_name_of claims) pc in (judge perm r, pc')

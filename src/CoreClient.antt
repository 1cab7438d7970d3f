-- ===== src/CoreClient.antt =====
-- lib/coreclient/client.go: asking the core service for the permissions of a role.
use Prim.Native.String.{◌++◌ as ◌<>◌}
use food_delivery_analytics.Prelude.{String, List, [], ◌∷◌, map}
use food_delivery_analytics.Effect.{Action, Result, ok, err}
use food_delivery_analytics.HttpClient.{Client, Transport, ApiResponse, get, wrap_fault}

pub record PermEntry : Type 0 where
  pub permission : String

pub record PermResponse : Type 0 where
  pub permissions : List PermEntry

-- `New`; the timeout of five seconds is the transport's.
abbrev pub new_client : String → String → Client
new_client base_url api_key = record { base_url = base_url; headers = ("x-api-key", api_key) ∷ [] }

abbrev pub permissions_of : Result PermResponse → Result (List String)
permissions_of (ok response) = ok (map (λ p. p.permission) response.permissions)
permissions_of (err e) = err (wrap_fault "get role permissions: " e)

-- `url.QueryEscape` and the JSON decoder are parameters.
module _ {W : Type 0} (t : Transport W) (query_escape : String → String)
    (unmarshal : String → Result (ApiResponse PermResponse)) where
  unfoldable pub get_role_permissions : Client → String → Action W (List String)
  get_role_permissions c role_name w =
      let path = "/api/internal/rbac/permissions?role=" <> query_escape role_name in
      let (r, w') = get t unmarshal c path [] w in (permissions_of r, w')

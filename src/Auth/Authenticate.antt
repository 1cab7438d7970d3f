-- ===== src/Auth/Authenticate.antt =====
-- lib/auth/middleware.go
pub mod Passages
use Prim.Native.String.{slice, len}
use text.Mathlib.Text.{starts_with}
use food_delivery_analytics.Prelude.{
  String, Bool, true, false, Option, none, some, ◌==◌, if◌then◌else◌,
}
use food_delivery_analytics.Effect.{Result, ok, err}
use food_delivery_analytics.Analytics.Errors.{err_unauthenticated}
use food_delivery_analytics.Http.{Request, Response, send_error}
use food_delivery_analytics.Rbac.Require.{Claims}
use food_delivery_analytics.Auth.Token.{Jwt, Checked, done, panicked, verify_token}

-- `r.Cookie(name)`, with `none` for an error, and `r.Header.Get(key)`, beside the rest.
pub record IncomingRequest : Type 0 where
  pub cookie : String → Option String
  pub header : String → String
  pub request : Request

-- `strings.TrimPrefix`
abbrev pub trim_prefix : String → String → String
trim_prefix s p = if starts_with s p then slice s (len p) (len s) else s

abbrev pub bearer_token : String → String
bearer_token auth = if starts_with auth "Bearer " then trim_prefix auth "Bearer " else ""

unfoldable pub extract_token : IncomingRequest → String
extract_token r = elim (r.cookie "access_token") [
  | none ↦ bearer_token (r.header "Authorization")
  | some value ↦ if value == "" then bearer_token (r.header "Authorization") else value
]

-- The request goes on with its claims, is answered, or the handler has panicked.
pub data Passage : Type 0 where
  pass_on : Claims → Passage
  turned_away : Response (Unit {0}) → Passage
  aborted : Passage

abbrev pub unauthenticated : Passage
unauthenticated = turned_away (
    send_error err_unauthenticated.status_code err_unauthenticated.code err_unauthenticated.message)

abbrev pub passage_of : Checked (Result Claims) → Passage
passage_of panicked = aborted
passage_of (done (err e)) = unauthenticated
passage_of (done (ok claims)) = pass_on claims

unfoldable pub authenticate : Jwt → String → IncomingRequest → Passage
authenticate jwt secret r =
    let token = extract_token r in
    if token == "" then unauthenticated else passage_of (verify_token jwt token secret)

-- ===== src/Tests/Tokens.antt =====
-- Tokens and requests, with a library that knows one token.
use food_delivery_analytics.Prelude.{
  String, ◌≡◌, refl, inl, inr, true, none, some, ◌==◌, eq_iff, Bool-cases, if◌then◌else◌,
}
use food_delivery_analytics.Prelude.Int.{pos, negsuc}
use food_delivery_analytics.Effect.{Result, ok, err, other_fault}
use food_delivery_analytics.Http.{Request}
use food_delivery_analytics.Auth.Token.{
  MapClaims, number, text, int_of_float, SigningMethod, hmac, Token, Jwt, key_function,
  verify_token,
}
use food_delivery_analytics.Auth.Tokens.{AreClaims}
use food_delivery_analytics.Auth.Tokens.Checking.{verify_token_sound}
use food_delivery_analytics.Auth.Authenticate.{
  IncomingRequest, extract_token, aborted, authenticate,
}
use food_delivery_analytics.Auth.Authenticate.Passages.{authenticate-aborted}
use food_delivery_analytics.Tests.Permissions.{analyst}

-- The token "signed" holds some claims, under the secret "key".
abbrev pub open_with : MapClaims → String → Result String → Result Token
open_with m token (err e) = err e
open_with m token (ok key) =
    if token == "signed"
    then if key == "key"
      then ok (record { claims = some m; valid = true })
      else err (other_fault "signature is invalid")
    else err (other_fault "token is malformed")

abbrev pub IsSigned : String → SigningMethod → String → Type 0
IsSigned token method key = (token ≡ "signed") × (method ≡ hmac) × (key ≡ "key")

opened :
    (m : MapClaims) (token : String) (r : Result String) (t : Token)
    → open_with m token r ≡ ok t
    → (key : String) × (r ≡ ok key) × IsSigned token hmac key
opened m token (err e) t h = cc h
opened m token (ok key) t h = elim (Bool-cases (token == "signed")) [
  | inl known ↦ elim (Bool-cases (key == "key")) [
    | inl right ↦ (key, refl, ((eq_iff token "signed").0 known, refl, (eq_iff key "key").0 right))
    | inr wrong ↦ absurd (cc (rw (known, wrong) at h))
  ]
  | inr other ↦ absurd (cc (rw other at h))
]

pub open_with-IsSigned :
    (m : MapClaims) (token : String) (key_of : SigningMethod → Result String) (t : Token)
    → open_with m token (key_of hmac) ≡ ok t
    → (method : SigningMethod) × (key : String) × (key_of method ≡ ok key)
      × IsSigned token method key
open_with-IsSigned m token key_of t h =
    let (key, chosen, signed) = opened m token (key_of hmac) t h in (hmac, key, chosen, signed)

abbrev pub jwt_with : MapClaims → Jwt
jwt_with m = record {
  parse = λ token key_of. open_with m token (key_of hmac);
  Signed = IsSigned;
  parse_signed = open_with-IsSigned m;
  int_beyond = λ x. negsuc 9223372036854775807;
}

-- The number 1 comes as a half of 2.
abbrev pub analyst_claims : MapClaims
analyst_claims k =
    if k == "userId"
    then some (number (record { significand = pos 2; halvings = 1 }))
    else if k == "role"
    then some (text "analyst")
    else if k == "countryCode"
    then some (text "EG")
    else none

abbrev pub jwt : Jwt
jwt = jwt_with analyst_claims

abbrev pub by_header : Request → IncomingRequest
by_header r = record {
  cookie = λ k. none;
  header = λ k. if k == "Authorization" then "Bearer signed" else "";
  request = r;
}

abbrev no_query : Request
no_query = record { url_param = λ k. ""; query = λ k. "" }

abbrev no_claims : MapClaims
no_claims k = none

verify_token_sound_example :
    jwt.Signed "signed" hmac "key"
    × ((t : Token) × (m : MapClaims) × (jwt.parse "signed" (key_function "key") ≡ ok t)
        × (t.claims ≡ some m)
        × (t.valid ≡ true)
        × AreClaims jwt.int_beyond m analyst)
unfolding verify_token int_of_float
verify_token_sound_example = verify_token_sound jwt "key" "signed" analyst refl

authenticate-aborted_example :
    authenticate (jwt_with no_claims) "key" (by_header no_query) ≡ aborted
unfolding extract_token
authenticate-aborted_example =
    authenticate-aborted (jwt_with no_claims) "key" (by_header no_query) no_claims refl refl
      (inl (λ n e. cc e))

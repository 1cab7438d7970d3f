-- ===== src/Auth/Authenticate/Passages.antt =====
-- Which requests `Authenticate` of lib/auth/middleware.go hands on.
use Prim.Native.String.{◌++◌ as ◌<>◌}
use text.Mathlib.Text.{starts_with}
use text.Mathlib.TextPositions.{starts_with-append, slice-append_right, len-append}
use food_delivery_analytics.Prelude.{
  String, ◌≡◌, ◌⊎◌, inl, inr, Bool-cases, true, false, none, some, ◌==◌, if◌then◌else◌,
}
use food_delivery_analytics.Effect.{Result, ok, err}
use food_delivery_analytics.Rbac.Require.{Claims}
use food_delivery_analytics.Auth.Token.{
  Checked, done, panicked, MapClaims, Jwt, key_function, verify_token,
}
use food_delivery_analytics.Auth.Tokens.{LacksClaim}
use food_delivery_analytics.Auth.Tokens.Checking.{verify_token_panics}
use food_delivery_analytics.Auth.Authenticate.{
  IncomingRequest, trim_prefix, bearer_token, extract_token, pass_on, aborted, passage_of,
  authenticate,
}

prefix_taken : (p t : String) → (if starts_with (p <> t) p then trim_prefix (p <> t) p else "") ≡ t
prefix_taken p t = rw (starts_with-append p t) (rw (len-append p t) (slice-append_right p t))

bearer_token-append : (t : String) → bearer_token ("Bearer " <> t) ≡ t
bearer_token-append t = prefix_taken "Bearer " t

-- The cookie of a request names no token.
abbrev pub HasNoCookie : IncomingRequest → Type 0
HasNoCookie r = (r.cookie "access_token" ≡ none) ⊎ (r.cookie "access_token" ≡ some "")

-- A token that a request without a cookie carries behind `Bearer ` is found as it was written.
pub extract_token-bearer :
    (r : IncomingRequest) (t : String)
    → HasNoCookie r
    → r.header "Authorization" ≡ "Bearer " <> t
    → extract_token r ≡ t
unfolding extract_token
extract_token-bearer r t (inl missing) h =
    rw (missing, extract_token) (rw h (bearer_token-append t))
extract_token-bearer r t (inr empty) h = rw (empty, extract_token) (rw h (bearer_token-append t))

passage_of-pass_on :
    (v : Checked (Result Claims)) (c : Claims) → passage_of v ≡ pass_on c → v ≡ done (ok c)
passage_of-pass_on (done (ok d)) c h = cc h
passage_of-pass_on (done (err e)) c h = cc h
passage_of-pass_on panicked c h = cc h

module _ (jwt : Jwt) (secret : String) (r : IncomingRequest) where
  -- The claims that a request is handed on with are those of its token.
  pub authenticate-pass_on :
      (c : Claims)
      → authenticate jwt secret r ≡ pass_on c
      → verify_token jwt (extract_token r) secret ≡ done (ok c)
  unfolding authenticate
  authenticate-pass_on c h = elim (Bool-cases (extract_token r == "")) [
    | inl missing ↦ absurd (cc (rw missing at h))
    | inr found ↦ passage_of-pass_on _ c (rw found at h)
  ]

  -- A request whose token is validly signed, and lacks one of the three required claims or has it by
  -- another type, makes the handler panic: it is neither handed on nor answered.
  pub authenticate-aborted :
      (m : MapClaims)
      → (extract_token r == "") ≡ false
      → jwt.parse (extract_token r) (key_function secret)
        ≡ ok (record { claims = some m; valid = true })
      → LacksClaim m
      → authenticate jwt secret r ≡ aborted
  unfolding authenticate
  authenticate-aborted m found parsed lacks =
      rw (found, verify_token_panics jwt secret (extract_token r) m parsed lacks)

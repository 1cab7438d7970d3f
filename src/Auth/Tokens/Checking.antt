-- ===== src/Auth/Tokens/Checking.antt =====
-- Which tokens `VerifyToken` of lib/auth/jwt.go accepts.
use food_delivery_analytics.Prelude.{String, ◌≡◌, refl, Bool, true, false, Option, none, some}
use food_delivery_analytics.Prelude.Int.{ℤ}
use food_delivery_analytics.Effect.{Result, ok, err}
use food_delivery_analytics.Rbac.Require.{Claims}
use food_delivery_analytics.Auth.Token.{
  Float64, Checked, done, panicked, MapClaims, SigningMethod, hmac, other_method, Token, Jwt,
  claims_of, key_function, returned, read_claims, read_token, verify_token,
}
use food_delivery_analytics.Auth.Tokens.{
  AreClaims, LacksClaim, claims_of-AreClaims, claims_of_panics,
}

returned-ok : (r : Checked Claims) (c : Claims) → returned r ≡ done (ok c) → r ≡ done c
returned-ok (done d) c h = cc h
returned-ok panicked c h = cc h

-- The key is given to one family of methods only.
key_function-ok :
    (secret : String) (method : SigningMethod) (key : String)
    → key_function secret method ≡ ok key
    → (method ≡ hmac) × (key ≡ secret)
key_function-ok secret hmac key h = (refl, cc h)
key_function-ok secret (other_method alg) key h = cc h

module _ (beyond : Float64 → ℤ) where
  read_claims-ok :
      (o : Option MapClaims) (valid : Bool) (c : Claims)
      → read_claims beyond o valid ≡ done (ok c)
      → (m : MapClaims) × (o ≡ some m) × (valid ≡ true) × (claims_of beyond m ≡ done c)
  read_claims-ok none valid c h = cc h
  read_claims-ok (some m) false c h = cc h
  read_claims-ok (some m) true c h = (m, refl, refl, returned-ok (claims_of beyond m) c h)

  read_token-ok :
      (r : Result Token) (c : Claims)
      → read_token beyond r ≡ done (ok c)
      → (t : Token) × (r ≡ ok t) × (read_claims beyond t.claims t.valid ≡ done (ok c))
  read_token-ok (ok t) c h = (t, refl, h)
  read_token-ok (err e) c h = cc h

module _ (jwt : Jwt) (secret token : String) where
  -- Claims that are accepted come from a token that is signed by an HMAC method with the service's
  -- secret, that is valid, and whose JSON claims are those, one by one: the three that are required,
  -- and the others if they are given; texts as they are, and numbers
  -- without their fractions if they fit in 64 bits.
  pub verify_token_sound :
      (c : Claims)
      → verify_token jwt token secret ≡ done (ok c)
      → jwt.Signed token hmac secret
        × ((t : Token) × (m : MapClaims) × (jwt.parse token (key_function secret) ≡ ok t)
            × (t.claims ≡ some m)
            × (t.valid ≡ true)
            × AreClaims jwt.int_beyond m c)
  unfolding verify_token
  verify_token_sound c h =
      let (t, parsed, accepted) =
        read_token-ok jwt.int_beyond (jwt.parse token (key_function secret)) c h in
      let (m, given, valid, claims) = read_claims-ok jwt.int_beyond t.claims t.valid c accepted in
      let (method, key, chosen, signed) = jwt.parse_signed token (key_function secret) t parsed in
      let (is_hmac, is_secret) = key_function-ok secret method key chosen in
      (
        rw (← is_hmac) (rw (← is_secret) signed),
        (t, m, parsed, given, valid, claims_of-AreClaims jwt.int_beyond m c claims),
      )

  pub verify_token_panics :
      (m : MapClaims)
      → jwt.parse token (key_function secret) ≡ ok (record { claims = some m; valid = true })
      → LacksClaim m
      → verify_token jwt token secret ≡ panicked
  unfolding verify_token
  verify_token_panics m parsed lacks = rw (parsed, claims_of_panics jwt.int_beyond m lacks)

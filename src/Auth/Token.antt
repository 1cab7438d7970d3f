-- ===== src/Auth/Token.antt =====
-- `VerifyToken` of lib/auth/jwt.go. Go's unchecked type assertions panic, so a result is checked:
-- there is one, or the code has panicked.
use Prim.Native.Nat.{◌^◌}
use food_delivery_analytics.Prelude.{
  ltb, if◌then◌else◌, ℕ, suc, ◌/◌, String, ◌≡◌, Bool, true, false, Option, none, some, List, [],
  ◌∷◌,
}
use food_delivery_analytics.Prelude.Int.{ℤ, pos, negsuc, neg_ℕ}
use food_delivery_analytics.Effect.{other_fault, Result, ok, err}
use food_delivery_analytics.HttpClient.{wrap_fault}
use food_delivery_analytics.Rbac.Require.{Claims}

pub data Checked (A : Type 0) : Type 0 where
  done : A → Checked A
  panicked : Checked A

infixl 5 ◌>>=◌
abbrev pub ◌>>=◌ : {A B : Type 0} → Checked A → (A → Checked B) → Checked B
done a >>= f = f a
panicked >>= f = panicked

-- A finite `float64`, as every number of JSON is decoded: the significand, halved so often.
pub record Float64 : Type 0 where
  pub significand : ℤ
  pub halvings : ℕ

-- The quotient of an integer, rounded towards 0.
abbrev pub toward_zero : ℤ → ℕ → ℤ
toward_zero (pos a) d = pos (a / d)
toward_zero (negsuc a) d = neg_ℕ (suc a / d)

-- The range of `int` on 64 bits.
abbrev pub fits_int : ℤ → Bool
fits_int (pos n) = ltb n 9223372036854775808
fits_int (negsuc n) = ltb n 9223372036854775808

-- `int(…)` of a `float64`: the fraction is dropped. Where the number does not fit, Go leaves the result
-- to the implementation: it is a parameter.
unfoldable pub int_of_float : (Float64 → ℤ) → Float64 → ℤ
int_of_float beyond x =
    let n = toward_zero x.significand (2 ^ x.halvings) in if fits_int n then n else beyond x

-- A decoded JSON value.
mutual
  pub data Json : Type 0 where
    null : Json
    boolean : Bool → Json
    number : Float64 → Json
    text : String → Json
    array : JsonItems → Json
    object : Json

  pub data JsonItems : Type 0 where
    end : JsonItems
    item : Json → JsonItems → JsonItems

-- `jwt.MapClaims`
abbrev pub MapClaims : Type 0
MapClaims = String → Option Json

pub data SigningMethod : Type 0 where
  hmac : SigningMethod
  other_method : String → SigningMethod

-- What `jwt.Parse` returns: `none` stands for claims that are no `MapClaims`.
pub record Token : Type 0 where
  pub claims : Option MapClaims
  pub valid : Bool

-- `jwt.Parse` with the function that chooses the key, and its documented law: a token that is
-- parsed without an error was signed by a method and a key that the function chose for it.
-- With it goes what the platform makes of a `float64` that is no `int`.
pub record Jwt : Type 1 where
  pub parse : String → (SigningMethod → Result String) → Result Token
  pub Signed : String → SigningMethod → String → Type 0
  pub parse_signed :
      (token : String) (key_of : SigningMethod → Result String) (t : Token)
      → parse token key_of ≡ ok t
      → (method : SigningMethod) × (key : String) × (key_of method ≡ ok key)
        × Signed token method key
  pub int_beyond : Float64 → ℤ

-- `v.(string)`
abbrev pub as_text : Option Json → Checked String
as_text (some (text s)) = done s
as_text _ = panicked

-- `if v, ok := mapClaims[k]; ok && v != nil { … }`
abbrev pub if_given : {A : Type 0} → (Option Json → Checked A) → Option Json → Checked (Option A)
if_given read none = done none
if_given read (some null) = done none
if_given read (some v) = read (some v) >>= λ a. done (some a)

-- the function that `jwt.Parse` is given
abbrev pub key_function : String → SigningMethod → Result String
key_function secret hmac = ok secret
key_function secret (other_method alg) = err (other_fault "unexpected signing method")

abbrev pub returned : Checked Claims → Checked (Result Claims)
returned (done claims) = done (ok claims)
returned panicked = panicked

module _ (beyond : Float64 → ℤ) where
  -- `int(v.(float64))`
  abbrev pub as_int : Option Json → Checked ℤ
  as_int (some (number x)) = done (int_of_float beyond x)
  as_int _ = panicked

  abbrev pub ints_of : JsonItems → Checked (List ℤ)
  ints_of end = done []
  ints_of (item v vs) = as_int (some v) >>= λ n. ints_of vs >>= λ ns. done (n ∷ ns)

  -- An array only; anything else is passed over.
  abbrev pub branch_ids_of : Option Json → Checked (List ℤ)
  branch_ids_of (some (array vs)) = ints_of vs
  branch_ids_of _ = done []

  abbrev pub claims_of : MapClaims → Checked Claims
  claims_of map_claims = do
    user_id ← as_int (map_claims "userId")
    role ← as_text (map_claims "role")
    country_code ← as_text (map_claims "countryCode")
    restaurant_id ← if_given as_int (map_claims "restaurantId")
    restaurant_role ← if_given as_text (map_claims "restaurantRole")
    branch_ids ← branch_ids_of (map_claims "branchIds")
    done (record {
      user_id = user_id;
      role = role;
      country_code = country_code;
      restaurant_id = restaurant_id;
      restaurant_role = restaurant_role;
      branch_ids = branch_ids;
    })

  abbrev pub read_claims : Option MapClaims → Bool → Checked (Result Claims)
  read_claims none valid = done (err (other_fault "invalid token claims"))
  read_claims (some map_claims) false = done (err (other_fault "invalid token claims"))
  read_claims (some map_claims) true = returned (claims_of map_claims)

  abbrev pub read_token : Result Token → Checked (Result Claims)
  read_token (err e) = done (err (wrap_fault "parse token: " e))
  read_token (ok token) = read_claims token.claims token.valid

unfoldable pub verify_token : Jwt → String → String → Checked (Result Claims)
verify_token jwt token secret = read_token jwt.int_beyond (jwt.parse token (key_function secret))

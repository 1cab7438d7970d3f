-- ===== src/Auth/Tokens.antt =====
-- What `VerifyToken` of lib/auth/jwt.go makes of the claims of a token.
pub mod Checking
use Prim.Native.Nat.{◌^◌}
use Prim.Native.Nat.pow
use food_delivery_analytics.Prelude.{
  Bool-cases, ℕ, zero, suc, ◌<◌, ◌*◌, ◌/◌, arith, String, ◌≡◌, refl, ◌≢◌, ◌⊎◌, inl, inr, ap, Bool,
  true, false, Option, none, some, List, [], ◌∷◌,
}
use food_delivery_analytics.Prelude.Int.{
  ℤ, pos, negsuc, pos_part, neg_part, IsQuotient, div-IsQuotient, neg_ℕ_parts,
}
use food_delivery_analytics.Rbac.Require.{Claims}
use food_delivery_analytics.Auth.Token.{
  Float64, fits_int, toward_zero, int_of_float, Checked, done, panicked, ◌>>=◌, Json, null, boolean,
  number, text, array, object, JsonItems, end, item, MapClaims, as_int, as_text, if_given, ints_of,
  branch_ids_of, claims_of,
}

-- Inversion: a result had both of its parts.
bind-eq-done :
    {A B : Type 0} (m : Checked A) (f : A → Checked B) {b : B}
    → (m >>= f) ≡ done b
    → (a : A) × (m ≡ done a) × (f a ≡ done b)
bind-eq-done (done a) f h = (a, refl, h)
bind-eq-done panicked f h = cc h

bind_panics :
    {A B : Type 0} (m : Checked A) (f : A → Checked B)
    → ((a : A) → f a ≡ panicked)
    → (m >>= f) ≡ panicked
bind_panics (done a) f h = h a
bind_panics panicked f h = refl

-- `n` is the quotient, rounded towards 0.
abbrev pub IsTruncated : ℤ → ℕ → ℤ → Type 0
IsTruncated (pos a) d n = (neg_part n ≡ 0) × IsQuotient a d (pos_part n)
IsTruncated (negsuc a) d n = (pos_part n ≡ 0) × IsQuotient (suc a) d (neg_part n)

abbrev pub IsText : Json → String → Type 0
IsText v s = v ≡ text s

power_is_positive : (n : ℕ) → 0 < 2 ^ n
power_is_positive zero = let base : 2 ^ 0 ≡ 1 = λ i. pow.zero 2 i in omega (arith, base)
power_is_positive (suc n) =
    let step : 2 ^ suc n ≡ 2 ^ n * 2 = λ i. pow.suc 2 n i in
    omega (arith, step, power_is_positive n)

toward_zero-IsTruncated : (a : ℤ) (d : ℕ) → 0 < d → IsTruncated a d (toward_zero a d)
toward_zero-IsTruncated (pos a) d h = (refl, div-IsQuotient a d h)
toward_zero-IsTruncated (negsuc a) d h =
    let (none_above, size) = neg_ℕ_parts (suc a / d) in
    (none_above, rw size (div-IsQuotient (suc a) d h))

-- A claim that is there, and read.
abbrev pub Gives : {A : Type 0} → (Json → A → Type 0) → Option Json → A → Type 0
Gives Is o a = (v : Json) × (o ≡ some v) × Is v a

as_text-done : (o : Option Json) (s : String) → as_text o ≡ done s → Gives IsText o s
as_text-done (some (text t)) s h = let same : t ≡ s = cc h in (text t, refl, ap text same)
as_text-done _ s h = cc h

-- An optional claim: given by a value, or missing or null.
abbrev pub GivenAs : {A : Type 0} → (Json → A → Type 0) → Option Json → Option A → Type 0
GivenAs Is o none = (o ≡ none) ⊎ (o ≡ some null)
GivenAs Is o (some a) = Gives Is o a

if_given-done :
    {A : Type 0} (Is : Json → A → Type 0) (read : Option Json → Checked A)
    → ((o : Option Json) (a : A) → read o ≡ done a → Gives Is o a)
    → (o : Option Json) (r : Option A) → if_given read o ≡ done r
    → GivenAs Is o r
if_given-done {A} Is read reads o r h = split o h
  where
    read_given :
        (v : Json) → (read (some v) >>= λ (a : A). done (some a)) ≡ done r → GivenAs Is (some v) r
    read_given v given =
        let (a, was, same) = bind-eq-done (read (some v)) (λ (a : A). done (some a)) given in
        let is_given : some a ≡ r = cc same in rw (← is_given) (reads (some v) a was)

    absent : (o : Option Json) → (o ≡ none) ⊎ (o ≡ some null) → done none ≡ done r → GivenAs Is o r
    absent o was same = let is_absent : none ≡ r = cc same in rw (← is_absent) was

    split : (o : Option Json) → if_given read o ≡ done r → GivenAs Is o r
    split none given = absent none (inl refl) given
    split (some null) given = absent (some null) (inr refl) given
    split (some (number n)) given = read_given (number n) given
    split (some v) given = read_given v given

-- A claim that every token must have is missing, or is of another type.
abbrev pub LacksClaim : MapClaims → Type 0
LacksClaim m =
    ((x : Float64) → m "userId" ≢ some (number x))
    ⊎ ((s : String) → m "role" ≢ some (text s))
    ⊎ ((s : String) → m "countryCode" ≢ some (text s))

as_text_panics : (o : Option Json) → ((s : String) → o ≢ some (text s)) → as_text o ≡ panicked
as_text_panics (some (text s)) h = absurd (h s refl)
as_text_panics _ h = refl

module _ (beyond : Float64 → ℤ) where
  -- A JSON number: as it is without its fraction if that fits, and as the platform has it if not.
  abbrev pub IsInt : Json → ℤ → Type 0
  IsInt v n =
      (x : Float64) × (v ≡ number x)
      × ((m : ℤ) × IsTruncated x.significand (2 ^ x.halvings) m
          × (((fits_int m ≡ true) × (n ≡ m)) ⊎ ((fits_int m ≡ false) × (n ≡ beyond x))))

  int_of_float-IsInt : (x : Float64) → IsInt (number x) (int_of_float beyond x)
  unfolding int_of_float
  int_of_float-IsInt x =
      let n = toward_zero x.significand (2 ^ x.halvings) in
      let is_n =
        toward_zero-IsTruncated x.significand (2 ^ x.halvings) (power_is_positive x.halvings) in
      elim (Bool-cases (fits_int n)) [
        | inl fits ↦ (x, refl, (n, is_n, inl (fits, rw fits refl)))
        | inr over ↦ (x, refl, (n, is_n, inr (over, rw over refl)))
      ]

  as_int-done : (o : Option Json) (n : ℤ) → as_int beyond o ≡ done n → Gives IsInt o n
  as_int-done (some (number x)) n h =
      let same : int_of_float beyond x ≡ n = cc h in
      (number x, refl, rw (← same) (int_of_float-IsInt x))
  as_int-done _ n h = cc h

  abbrev pub AreInts : JsonItems → List ℤ → Type 0
  AreInts end [] = Unit {0}
  AreInts (item v vs) (n ∷ ns) = IsInt v n × AreInts vs ns
  AreInts end (n ∷ ns) = ⊥
  AreInts (item v vs) [] = ⊥

  -- The branches are an array of numbers, or there is no array and they are none.
  abbrev pub BranchesGivenAs : Option Json → List ℤ → Type 0
  BranchesGivenAs o ns =
      ((vs : JsonItems) × (o ≡ some (array vs)) × AreInts vs ns)
      ⊎ ((ns ≡ []) × ((vs : JsonItems) → o ≢ some (array vs)))

  -- The claims are the token's, one by one.
  abbrev pub AreClaims : MapClaims → Claims → Type 0
  AreClaims m c =
      Gives IsInt (m "userId") c.user_id
      × Gives IsText (m "role") c.role
      × Gives IsText (m "countryCode") c.country_code
      × GivenAs IsInt (m "restaurantId") c.restaurant_id
      × GivenAs IsText (m "restaurantRole") c.restaurant_role
      × BranchesGivenAs (m "branchIds") c.branch_ids

  ints_of-done : (vs : JsonItems) (ns : List ℤ) → ints_of beyond vs ≡ done ns → AreInts vs ns
  ints_of-done end ns h = let none_left : [] ≡ ns = cc h in rw (← none_left) tt
  ints_of-done (item v vs) ns h =
      let (n, first, h') = bind-eq-done (as_int beyond (some v)) _ h in
      let (ms, rest, last) = bind-eq-done (ints_of beyond vs) _ h' in
      let same : n ∷ ms ≡ ns = cc last in
      let (u, is_u, is_int) = as_int-done (some v) n first in
      let same_item : v ≡ u = cc is_u in rw (← same) (rw same_item is_int, ints_of-done vs ms rest)

  branch_ids_of-done :
      (o : Option Json) (ns : List ℤ) → branch_ids_of beyond o ≡ done ns → BranchesGivenAs o ns
  branch_ids_of-done (some (array vs)) ns h = inl (vs, refl, ints_of-done vs ns h)
  branch_ids_of-done none ns h = inr (cc h, λ vs e. cc e)
  branch_ids_of-done (some v) ns h = inr (cc h, λ vs e. cc e)

  pub claims_of-AreClaims :
      (m : MapClaims) (c : Claims) → claims_of beyond m ≡ done c → AreClaims m c
  claims_of-AreClaims m c h =
      let (user_id, a, h1) = bind-eq-done (as_int beyond (m "userId")) _ h in
      let (role, b, h2) = bind-eq-done (as_text (m "role")) _ h1 in
      let (country_code, d, h3) = bind-eq-done (as_text (m "countryCode")) _ h2 in
      let (restaurant_id, e, h4) =
        bind-eq-done (if_given (as_int beyond) (m "restaurantId")) _ h3 in
      let (restaurant_role, f, h5) = bind-eq-done (if_given as_text (m "restaurantRole")) _ h4 in
      let (branch_ids, g, h6) = bind-eq-done (branch_ids_of beyond (m "branchIds")) _ h5 in
      let same : record {
        user_id = user_id;
        role = role;
        country_code = country_code;
        restaurant_id = restaurant_id;
        restaurant_role = restaurant_role;
        branch_ids = branch_ids;
      }
          ≡ c =
        cc h6 in
      rw (← same) (
        as_int-done _ user_id a,
        as_text-done _ role b,
        as_text-done _ country_code d,
        if_given-done IsInt (as_int beyond) as_int-done _ restaurant_id e,
        if_given-done IsText as_text as_text-done _ restaurant_role f,
        branch_ids_of-done _ branch_ids g,
      )

  as_int_panics :
      (o : Option Json) → ((x : Float64) → o ≢ some (number x)) → as_int beyond o ≡ panicked
  as_int_panics (some (number n)) h = absurd (h n refl)
  as_int_panics _ h = refl

  pub claims_of_panics : (m : MapClaims) → LacksClaim m → claims_of beyond m ≡ panicked
  claims_of_panics m (inl h) = rw (as_int_panics (m "userId") h)
  claims_of_panics m (inr (inl h)) =
      bind_panics (as_int beyond (m "userId")) _ λ _. rw (as_text_panics (m "role") h)
  claims_of_panics m (inr (inr h)) =
      bind_panics (as_int beyond (m "userId")) _
        λ _. bind_panics (as_text (m "role")) _ λ _. rw (as_text_panics (m "countryCode") h)

-- ===== src/Dto/Parsing.antt =====
-- What the requests of app/analytics/dto accept.
use food_delivery_analytics.Prelude.{
  String, ◌≡◌, refl, ◌⊎◌, inl, inr, ◌↔◌, Bool, true, false, Option, none, some, arith, ◌==◌,
  if◌then◌else◌,
}
use food_delivery_analytics.Prelude.Int.{ℤ, pos, ◌<ℤ◌, leb_ℤ}
use food_delivery_analytics.Effect.{Result, ok, err, AppError, app_fault}
use food_delivery_analytics.Analytics.Errors.{
  err_missing_from, err_missing_to, err_invalid_from, err_invalid_to, err_invalid_id,
}
use food_delivery_analytics.Service.Calendar.{Calendar}
use food_delivery_analytics.Http.{Request}
use food_delivery_analytics.Dto.Requests.{
  parse_id, parse_date, then_ok, parse_get_branch_days_request, parse_get_restaurant_days_request,
  GetRestaurantDaysRequest, GetBranchDaysRequest,
}

-- A path segment that is a positive number, and a query value that is a date.
abbrev pub IsId : (String → Option ℤ) → String → ℤ → Type 0
IsId atoi s id = (atoi s ≡ some id) × (pos 0 <ℤ id)

abbrev pub IsDate : Calendar → String → Type 0
IsDate cal s = ((s == "") ≡ false) × (cal.is_date s ≡ true)

-- An error of the service's own with status 400.
abbrev pub IsBadRequest : {A : Type 0} → Result A → Type 0
IsBadRequest r = (e : AppError) × (r ≡ err (app_fault e)) × (e.status_code ≡ 400)

module _ (cal : Calendar) (atoi : String → Option ℤ) (r : Request) where
  -- A request for a branch's days is read exactly if the path holds two positive numbers and the
  -- query two dates, and what is read is those.
  pub parse_get_branch_days_request_accepts :
      (req : GetBranchDaysRequest)
      → (parse_get_branch_days_request cal atoi r ≡ ok req) ↔ (
          IsId atoi (r.url_param "restaurantId") req.restaurant_id
          × IsId atoi (r.url_param "branchId") req.branch_id
          × (r.query "from" ≡ req.from_date)
          × IsDate cal (r.query "from")
          × (r.query "to" ≡ req.to_date)
          × IsDate cal (r.query "to"))
  unfolding parse_get_branch_days_request
  parse_get_branch_days_request_accepts req = ground arith

  pub parse_get_restaurant_days_request_accepts :
      (req : GetRestaurantDaysRequest)
      → (parse_get_restaurant_days_request cal atoi r ≡ ok req) ↔ (
          IsId atoi (r.url_param "restaurantId") req.restaurant_id
          × (r.query "from" ≡ req.from_date)
          × IsDate cal (r.query "from")
          × (r.query "to" ≡ req.to_date)
          × IsDate cal (r.query "to"))
  unfolding parse_get_restaurant_days_request
  parse_get_restaurant_days_request_accepts req = ground arith

-- A result that is a value or an error of status 400.
abbrev pub RefusesAs400 : {A : Type 0} → Result A → Type 0
RefusesAs400 {A} r = ((a : A) × (r ≡ ok a)) ⊎ IsBadRequest r

parse_id-RefusesAs400 : (v : Option ℤ) → RefusesAs400 (parse_id v)
parse_id-RefusesAs400 none = inr (_, refl, refl)
parse_id-RefusesAs400 (some id) = split (leb_ℤ id (pos 0))
  where
    split : (b : Bool) → RefusesAs400 (if b then err (app_fault err_invalid_id) else ok id)
    split true = inr (_, refl, refl)
    split false = inl (id, refl)

parse_date-RefusesAs400 :
    (cal : Calendar) (missing invalid : AppError) (s : String)
    → missing.status_code ≡ 400
    → invalid.status_code ≡ 400
    → RefusesAs400 (parse_date cal missing invalid s)
parse_date-RefusesAs400 cal missing invalid s p q = split (s == "") (cal.is_date s)
  where
    split :
        (b c : Bool)
        → RefusesAs400
            (if b then err (app_fault missing) else if c then ok s else err (app_fault invalid))
    split true c = inr (missing, refl, p)
    split false true = inl (s, refl)
    split false false = inr (invalid, refl, q)

then_ok-RefusesAs400 :
    {A B : Type 0} (r : Result A) (f : A → Result B)
    → RefusesAs400 r
    → ((a : A) → RefusesAs400 (f a))
    → RefusesAs400 (then_ok r f)
then_ok-RefusesAs400 (ok a) f h k = k a
then_ok-RefusesAs400 (err x) f (inl (a, e)) k = cc e
then_ok-RefusesAs400 (err x) f (inr (e, p, q)) k =
    let same : app_fault e ≡ x = cc p in inr (e, rw same refl, q)

module _ (cal : Calendar) (atoi : String → Option ℤ) (r : Request) where
  pub parse_get_restaurant_days_request-RefusesAs400 :
      RefusesAs400 (parse_get_restaurant_days_request cal atoi r)
  unfolding parse_get_restaurant_days_request
  parse_get_restaurant_days_request-RefusesAs400 =
      then_ok-RefusesAs400 _ _ (parse_id-RefusesAs400 (atoi (r.url_param "restaurantId"))) (λ id.
        then_ok-RefusesAs400 _ _
          (parse_date-RefusesAs400 cal err_missing_from err_invalid_from (r.query "from") refl refl)
          (λ d.
            then_ok-RefusesAs400 _ _
              (parse_date-RefusesAs400 cal err_missing_to err_invalid_to (r.query "to") refl refl)
              (λ d'. inl (_, refl))))

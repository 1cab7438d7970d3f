-- ===== src/Dto/Requests.antt =====
-- The requests of app/analytics/dto: days_request.go, platform_days_request.go and
-- product_days_request.go. `strconv.Atoi` is a parameter, with `none` for an error.
use food_delivery_analytics.Prelude.{String, Option, none, some, ◌==◌, if◌then◌else◌}
use food_delivery_analytics.Prelude.Int.{ℤ, pos, leb_ℤ}
use food_delivery_analytics.Effect.{Result, ok, err, AppError, app_fault}
use food_delivery_analytics.Analytics.Errors.{
  err_missing_from, err_missing_to, err_invalid_from, err_invalid_to, err_invalid_id,
}
use food_delivery_analytics.Service.Calendar.{Calendar}
use food_delivery_analytics.Http.{Request}

pub record GetRestaurantDaysRequest : Type 0 where
  pub restaurant_id : ℤ
  pub from_date : String
  pub to_date : String

pub record GetBranchDaysRequest : Type 0 where
  pub restaurant_id : ℤ
  pub branch_id : ℤ
  pub from_date : String
  pub to_date : String

pub record GetPlatformDaysRequest : Type 0 where
  pub from_date : String
  pub to_date : String

pub record GetProductDaysRequest : Type 0 where
  pub restaurant_id : ℤ
  pub from_date : String
  pub to_date : String

abbrev pub then_ok : {A B : Type 0} → Result A → (A → Result B) → Result B
then_ok (ok a) f = f a
then_ok (err e) f = err e

-- A positive number from the path.
abbrev pub parse_id : Option ℤ → Result ℤ
parse_id none = err (app_fault err_invalid_id)
parse_id (some id) = if leb_ℤ id (pos 0) then err (app_fault err_invalid_id) else ok id

-- A date from the query string, with the errors for a missing and for a bad one.
abbrev pub parse_date : Calendar → AppError → AppError → String → Result String
parse_date cal missing invalid s =
    if s == ""
    then err (app_fault missing)
    else if cal.is_date s
    then ok s
    else err (app_fault invalid)

module _ (cal : Calendar) (atoi : String → Option ℤ) (r : Request) where
  abbrev pub parse_from : Result String
  parse_from = parse_date cal err_missing_from err_invalid_from (r.query "from")

  abbrev pub parse_to : Result String
  parse_to = parse_date cal err_missing_to err_invalid_to (r.query "to")

  unfoldable pub parse_get_branch_days_request : Result GetBranchDaysRequest
  parse_get_branch_days_request = then_ok (parse_id (atoi (r.url_param "restaurantId"))) λ id.
      then_ok (parse_id (atoi (r.url_param "branchId"))) λ branch_id.
        then_ok parse_from λ from_date. then_ok parse_to λ to_date. ok (record {
          restaurant_id = id;
          branch_id = branch_id;
          from_date = from_date;
          to_date = to_date;
        })

  unfoldable pub parse_get_restaurant_days_request : Result GetRestaurantDaysRequest
  parse_get_restaurant_days_request = then_ok (parse_id (atoi (r.url_param "restaurantId"))) λ id.
      then_ok parse_from λ from_date.
        then_ok parse_to
          λ to_date. ok (record { restaurant_id = id; from_date = from_date; to_date = to_date })

  unfoldable pub parse_get_platform_days_request : Result GetPlatformDaysRequest
  parse_get_platform_days_request = then_ok parse_from λ from_date.
      then_ok parse_to λ to_date. ok (record { from_date = from_date; to_date = to_date })

  unfoldable pub parse_get_product_days_request : Result GetProductDaysRequest
  parse_get_product_days_request = then_ok (parse_id (atoi (r.url_param "restaurantId"))) λ id.
      then_ok parse_from λ from_date.
        then_ok parse_to
          λ to_date. ok (record { restaurant_id = id; from_date = from_date; to_date = to_date })

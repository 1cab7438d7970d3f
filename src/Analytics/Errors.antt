-- ===== src/Analytics/Errors.antt =====
-- The errors of app/analytics/errors.go, and those of lib/errors/apperror.go.
use food_delivery_analytics.Prelude.{ℕ, String}
use food_delivery_analytics.Effect.{AppError}

-- `errors.New`
abbrev pub new_error : String → ℕ → String → AppError
new_error c s m = record { code = c; message = m; status_code = s }

abbrev pub err_invalid_date_range : AppError
err_invalid_date_range =
    new_error "ANALYTICS_INVALID_DATE_RANGE" 400 "'from' must be before or equal to 'to'"

abbrev pub err_missing_from : AppError
err_missing_from =
    new_error "VALIDATION_ERROR" 400 "Query parameter 'from' is required (YYYY-MM-DD)"

abbrev pub err_missing_to : AppError
err_missing_to = new_error "VALIDATION_ERROR" 400 "Query parameter 'to' is required (YYYY-MM-DD)"

abbrev pub err_invalid_from : AppError
err_invalid_from =
    new_error "VALIDATION_ERROR" 400 "Query parameter 'from' must be a valid date (YYYY-MM-DD)"

abbrev pub err_invalid_to : AppError
err_invalid_to =
    new_error "VALIDATION_ERROR" 400 "Query parameter 'to' must be a valid date (YYYY-MM-DD)"

abbrev pub err_invalid_id : AppError
err_invalid_id =
    new_error "VALIDATION_ERROR" 400 "Path parameter 'restaurantId' must be a positive integer"

abbrev pub err_unauthenticated : AppError
err_unauthenticated = new_error "UNAUTHENTICATED" 401 "Authentication required"

abbrev pub err_forbidden : AppError
err_forbidden = new_error "FORBIDDEN" 403 "Insufficient permissions"

abbrev pub err_validation : AppError
err_validation = new_error "VALIDATION_ERROR" 400 "Validation failed"

abbrev pub err_internal : AppError
err_internal = new_error "INTERNAL_ERROR" 500 "Something went wrong"

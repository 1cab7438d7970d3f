-- ===== src/Http.antt =====
-- lib/http/response.go, `Wrap` of lib/errors/handler.go, and what the code reads of a request.
use food_delivery_analytics.Prelude.{ℕ, String}
use food_delivery_analytics.Effect.{
  Action, Fault, app_fault, duplicate_key, other_fault, Result, ok, err,
}

-- `chi.URLParam(r, key)` and `r.URL.Query().Get(key)`
pub record Request : Type 0 where
  pub url_param : String → String
  pub query : String → String

pub record ErrorBody : Type 0 where
  pub code : String
  pub message : String

-- A response's status and body: `SuccessResponse` with its data, or `ErrorResponse`.
pub data Response (A : Type 0) : Type 0 where
  success : ℕ → A → Response A
  failure : ℕ → ErrorBody → Response A

module _ {A : Type 0} where
  abbrev pub send_success : ℕ → A → Response A
  send_success status_code content = success status_code content

  abbrev pub send_error : ℕ → String → String → Response A
  send_error status_code code message =
      failure status_code (record { code = code; message = message })

  -- what `Wrap` answers for an error
  abbrev pub answer_fault : Fault → Response A
  answer_fault (app_fault e) = send_error e.status_code e.code e.message
  answer_fault duplicate_key = send_error 500 "INTERNAL_ERROR" "Something went wrong"
  answer_fault (other_fault text) = send_error 500 "INTERNAL_ERROR" "Something went wrong"

  abbrev pub answer : Result (Response A) → Response A
  answer (ok response) = response
  answer (err e) = answer_fault e

abbrev pub wrap : {W A : Type 0} → Action W (Response A) → W → Response A × W
wrap h w = let (r, w') = h w in (answer r, w')

-- ===== src/Middleware.antt =====
-- lib/middleware/correlation.go: the correlation id of a request, and the line that is logged for it.
pub mod Traces
use food_delivery_analytics.Prelude.{
  ℕ, ◌-◌, ◌/◌, String, Option, none, some, List, [], ◌∷◌, ◌++◌, ◌==◌, if◌then◌else◌,
}
use food_delivery_analytics.Mongo.Document.{Time}
use food_delivery_analytics.Http.{Response, success, failure}
use food_delivery_analytics.HttpClient.{set_header}
use food_delivery_analytics.AppContext.{Context, set_correlation_id, correlation_id}

pub record HttpRequest : Type 0 where
  pub http_method : String
  pub path : String
  pub header : String → String

-- An `http.ResponseWriter`: its headers, the calls of `WriteHeader` so far, and the status of the
-- `statusWriter` around it, if there is one.
pub record Writer : Type 0 where
  pub headers : List (String × String)
  pub codes : List ℕ
  pub status : Option ℕ

abbrev pub recorded : ℕ → Option ℕ → Option ℕ
recorded code none = none
recorded code (some status) = some code

abbrev pub write_header : ℕ → Writer → Writer
write_header code w = record w { codes = w.codes ++ code ∷ []; status = recorded code w.status }

-- What net/http sends: the first status that is written, and 200 without one.
abbrev pub sent_status : List ℕ → ℕ
sent_status [] = 200
sent_status (code ∷ codes) = code

abbrev pub Handler : Type 0 → Type 0
Handler W = Context → HttpRequest → Writer → W → Writer × W

pub record LogLine : Type 0 where
  pub http_method : String
  pub path : String
  pub status : ℕ
  pub duration_ms : ℕ
  pub correlation_id : String

abbrev pub choose_id : {W : Type 0} → (W → String × W) → String → W → String × W
choose_id new_uuid given w = if given == "" then new_uuid w else (given, w)

-- `uuid.NewString` is a parameter.
unfoldable pub correlation : {W : Type 0} → (W → String × W) → Handler W → Handler W
correlation new_uuid next ctx r writer w =
    let (cid, w') = choose_id new_uuid (r.header "X-CorrelationId") w in
    next (set_correlation_id ctx cid) r
      (record writer { headers = set_header "X-CorrelationId" cid writer.headers }) w'

-- The status of a `statusWriter`, which starts with 200.
abbrev pub status_of : Option ℕ → ℕ
status_of none = 200
status_of (some status) = status

-- The clock, in nanoseconds, and the log are parameters.
unfoldable pub access_log :
    {W : Type 0} → (W → Time × W) → (LogLine → W → W) → Handler W → Handler W
access_log now info next ctx r writer w =
    let (start, w1) = now w in
    let (ww, w2) = next ctx r (record writer { status = some 200 }) w1 in
    let (finish, w3) = now w2 in
    (
      record ww { status = writer.status },
      info
          (record {
            http_method = r.http_method;
            path = r.path;
            status = status_of ww.status;
            duration_ms = (finish - start) / 1000000;
            correlation_id = correlation_id ctx;
          })
          w3,
    )

abbrev pub status_code_of : {A : Type 0} → Response A → ℕ
status_code_of (success status_code content) = status_code
status_code_of (failure status_code body) = status_code

-- A handler that ends with `SendSuccess` or `SendError` of lib/http/response.go.
abbrev pub respond : {W A : Type 0} → (Context → HttpRequest → W → Response A × W) → Handler W
respond answer ctx r writer w =
    let (response, w') = answer ctx r w in
    (
      write_header (status_code_of response)
          (record writer { headers = set_header "Content-Type" "application/json" writer.headers }),
      w',
    )

-- ===== src/Middleware/Traces.antt =====
-- What the log says of a request, against what its client gets: lib/middleware/correlation.go.
use food_delivery_analytics.Prelude.{
  ℕ, String, ◌≡◌, refl, ◌⊎◌, inl, inr, false, Option, none, some, List, [], ◌∷◌, ◌++◌, true, ◌==◌,
  Bool-cases, eq_iff, if◌then◌else◌,
}
use food_delivery_analytics.Mongo.Document.{Time}
use food_delivery_analytics.Http.{Response}
use food_delivery_analytics.HttpClient.{set_header}
use food_delivery_analytics.AppContext.{Context}
use food_delivery_analytics.Middleware.{
  HttpRequest, Writer, write_header, sent_status, Handler, LogLine, correlation, access_log,
  status_code_of, respond,
}

-- The first header of a name.
abbrev pub header_of : String → List (String × String) → Option String
header_of k [] = none
header_of k ((j, v) ∷ hs) = if j == k then some v else header_of k hs

header_of-set_header_other :
    (k j v : String) (hs : List (String × String))
    → (j == k) ≡ false
    → header_of k (set_header j v hs) ≡ header_of k hs
header_of-set_header_other k j v [] other = rw other refl
header_of-set_header_other k j v ((i, u) ∷ hs) other = elim (Bool-cases (i == j)) [
  | inl same ↦ let is_same : i ≡ j = (eq_iff i j).0 same in rw same (rw is_same (rw other refl))
  | inr different ↦ elim (Bool-cases (i == k)) [
    | inl found ↦ rw different (rw found refl)
    | inr not_it ↦ rw different (rw not_it (header_of-set_header_other k j v hs other))
  ]
]

-- The response bears the id of a line that says what status was sent.
abbrev pub IsTraced : Writer → LogLine → Type 0
IsTraced writer line =
    (header_of "X-CorrelationId" writer.headers ≡ some line.correlation_id)
    × (line.status ≡ sent_status writer.codes)

abbrev pub fresh_writer : Writer
fresh_writer = record { headers = []; codes = []; status = none }

-- The id that a request brings in its header, or a new one if it brings none.
abbrev pub IsCorrelationId : HttpRequest → String → String → Type 0
IsCorrelationId r fresh id =
    (((r.header "X-CorrelationId" == "") ≡ true) × (id ≡ fresh))
    ⊎ (((r.header "X-CorrelationId" == "") ≡ false) × (id ≡ r.header "X-CorrelationId"))

-- The handlers of the service behind the two middlewares, in the order of `r.Use`.
abbrev pub stack :
    {W : Type 0} → (W → String × W) → (W → Time × W) → (LogLine → W → W) → Handler W → Handler W
stack new_uuid now info next = correlation new_uuid (access_log now info next)

module _ {W : Type 0} (new_uuid : W → String × W) (now : W → Time × W) (info : LogLine → W → W)
    (lines : W → List LogLine) where
  -- The lines of the log: `Info` adds one at the end, and what the middlewares call besides adds none.
  pub record LogLaws : Type 0 where
    pub lines-info : (line : LogLine) (w : W) → lines (info line w) ≡ lines w ++ line ∷ []
    pub lines-now : (w : W) → lines (now w).1 ≡ lines w
    pub lines-new_uuid : (w : W) → lines (new_uuid w).1 ≡ lines w

  -- A handler that writes no status or one, leaves the correlation header as it finds it, and logs
  -- nothing itself.
  pub record WritesOnce (next : Handler W) : Type 0 where
    pub statuses :
        (ctx : Context) (r : HttpRequest) (writer : Writer) (w : W)
        → (((next ctx r writer w).0.codes ≡ writer.codes)
            × ((next ctx r writer w).0.status ≡ writer.status))
          ⊎ ((code : ℕ) × ((next ctx r writer w).0.codes ≡ (write_header code writer).codes)
              × ((next ctx r writer w).0.status ≡ (write_header code writer).status))
    pub header_kept :
        (ctx : Context) (r : HttpRequest) (writer : Writer) (w : W)
        → header_of "X-CorrelationId" (next ctx r writer w).0.headers
          ≡ header_of "X-CorrelationId" writer.headers
    pub lines_kept :
        (ctx : Context) (r : HttpRequest) (writer : Writer) (w : W)
        → lines (next ctx r writer w).1 ≡ lines w

  pub respond-WritesOnce :
      {A : Type 0} (answer : Context → HttpRequest → W → Response A × W)
      → ((ctx : Context) (r : HttpRequest) (w : W) → lines (answer ctx r w).1 ≡ lines w)
      → WritesOnce (respond answer)
  respond-WritesOnce answer silent = record {
    statuses = λ ctx r writer w. inr (status_code_of (answer ctx r w).0, refl, refl);
    header_kept = λ ctx r writer w.
        header_of-set_header_other "X-CorrelationId" "Content-Type" "application/json"
          writer.headers refl;
    lines_kept = λ ctx r writer w. silent ctx r w;
  }

-- ===== src/Tests/Requests.antt =====
-- A request through the middlewares, with a log that is kept.
use food_delivery_analytics.Prelude.{ℕ, String, ◌+◌, List, [], ◌∷◌, ◌++◌, ◌==◌, if◌then◌else◌}
use food_delivery_analytics.Mongo.Document.{Time}
use food_delivery_analytics.Http.{Response, send_error}
use food_delivery_analytics.AppContext.{Context}
use food_delivery_analytics.Middleware.{HttpRequest, Handler, LogLine, respond}

-- The clock, and the lines of the log.
abbrev World : Type 0
World = ℕ × List LogLine

abbrev uuid : World → String × World
uuid w = ("0b5f", w)

abbrev tick : World → Time × World
tick (n, lines) = (n, (n + 1, lines))

abbrev write_line : LogLine → World → World
write_line line (n, lines) = (n, lines ++ line ∷ [])

abbrev not_found : Context → HttpRequest → World → Response (Unit {0}) × World
not_found ctx r w = (send_error 404 "NOT_FOUND" "", w)

abbrev missing : Handler World
missing = respond not_found

abbrev request : HttpRequest
request = record {
  http_method = "GET";
  path = "/days";
  header = λ k. if k == "X-CorrelationId" then "abc" else "";
}

abbrev lines_of : World → List LogLine
lines_of w = w.1

-- ===== src/Service/Calendar.antt =====
-- What the service uses of Go's package `time`, besides the clock.
use food_delivery_analytics.Prelude.{String, Bool, Option}
use food_delivery_analytics.Mongo.Document.{Time}

pub record Calendar : Type 0 where
  -- `time.Parse(time.RFC3339, raw)`, with `none` for an error
  pub parse_rfc3339 : String → Option Time
  -- `t.UTC().Format("2006-01-02")`
  pub format_date : Time → String
  -- whether `time.Parse("2006-01-02", s)` succeeds
  pub is_date : String → Bool

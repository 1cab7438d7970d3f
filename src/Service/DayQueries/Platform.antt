-- ===== src/Service/DayQueries/Platform.antt =====
-- `GetPlatformDays` of analytics_service.go, over platform_day_repo.go.
use food_delivery_analytics.Prelude.{String, ◌≡◌, ◌∙◌, false, List, arith, text_gtb}
use food_delivery_analytics.Effect.{ok, app_fault}
use food_delivery_analytics.Mongo.Document.{Document, matches}
use food_delivery_analytics.Mongo.Driver.{Driver, ReadLaws}
use food_delivery_analytics.Mongo.Rows.{decode_int-int_of, sum_of}
use food_delivery_analytics.Analytics.Errors.{err_invalid_date_range}
use food_delivery_analytics.Analytics.Enums.{collection_agg_platform_day}
use food_delivery_analytics.Analytics.Types.{PlatformDayResponse, DateRange}
use food_delivery_analytics.Analytics.Entity
use food_delivery_analytics.Repository.PlatformDay
use food_delivery_analytics.Repository.PlatformDay.Effects.{platform_totals}
use food_delivery_analytics.Repository.DayTotals.{day_totals}
use food_delivery_analytics.Repository.Book.{book}
use food_delivery_analytics.Service.Queries.{get_platform_days, platform_response}
use food_delivery_analytics.Service.Reports.{
  ReadsDay, IsReport, query-IsReport, between_same, agreeing_totals,
}
use food_delivery_analytics.Service.DayQueries.{past_guard}

module _ {W : Type 0} (db : Driver W) (laws : ReadLaws db) where
  platform_reads :
      (d : Document) (w : W) (r : Entity.PlatformDay)
      → (PlatformDay.decode_row db d w).0 ≡ ok r
      → ReadsDay (λ x. x.date) (λ x. x.orders_count) (λ x. x.revenue_minor) d (platform_response r)
  unfolding PlatformDay.decode_row
  platform_reads d w r h = ground (
    arith,
    laws.decode_text_sound (d "date") r.date,
    decode_int-int_of db laws (d "orders_count") r.orders_count,
    decode_int-int_of db laws (d "revenue_sum") r.revenue_sum,
  )

  -- A query for the platform that succeeds has a range that is not reversed; its days lie in the
  -- range, in ascending order; and their orders and revenues add up to those of all documents of
  -- the platform, of any currency, in the range. The driver's reads are assumed to do what is documented.
  pub get_platform_days-IsReport :
      (range : DateRange) (w : W) (rs : List PlatformDayResponse)
      → (get_platform_days db range w).0 ≡ ok rs
      → (text_gtb range.from_date range.to_date ≡ false)
        × IsReport
            (λ x. x.date)
            (λ x. x.orders_count)
            (λ x. x.revenue_minor)
            (PlatformDay.range_filter range.from_date range.to_date)
            range.from_date
            range.to_date
            (db.documents w collection_agg_platform_day)
            rs
  unfolding get_platform_days PlatformDay.find_by_range
  get_platform_days-IsReport range w rs h =
      let lo = range.from_date in
      let hi = range.to_date in
      let (in_order, found) =
        past_guard (text_gtb lo hi) (app_fault err_invalid_date_range) _ w rs h in
      (
        in_order,
        query-IsReport db laws (PlatformDay.decode_row db) platform_response (λ x. x.date)
            (λ x. x.orders_count) (λ x. x.revenue_minor) platform_reads collection_agg_platform_day
            (PlatformDay.range_filter lo hi) lo hi (λ d hit. ground arith) w rs found,
      )

  -- A query for one day of the platform that succeeds adds up to the counters that the events of that
  -- day have moved.
  pub get_platform_days-book :
      (day : String) (w : W) (rs : List PlatformDayResponse)
      → (get_platform_days db (record { from_date = day; to_date = day }) w).0 ≡ ok rs
      → (sum_of (λ x. x.orders_count) rs ≡ ((book db w).platform day).orders)
        × (sum_of (λ x. x.revenue_minor) rs ≡ ((book db w).platform day).revenue)
  unfolding book platform_totals day_totals
  get_platform_days-book day w rs h =
      let (_, report) = get_platform_days-IsReport _ w rs h in
      let g = PlatformDay.range_filter day day in
      let f = PlatformDay.date_filter day in
      let same : (d : Document) → matches g d ≡ matches f d =
        λ d. ground (arith, between_same day (d "date")) in
      let ds = db.documents w collection_agg_platform_day in
      (
        report.orders_add_up ∙ agreeing_totals g f "orders_count" same ds,
        report.revenue_adds_up ∙ agreeing_totals g f "revenue_sum" same ds,
      )

-- ===== src/Service/DayQueries/Branch.antt =====
-- `GetBranchDays` of analytics_service.go, over branch_day_repo.go.
use food_delivery_analytics.Prelude.{String, ◌≡◌, ◌∙◌, false, List, arith, text_gtb}
use food_delivery_analytics.Prelude.Int.{ℤ}
use food_delivery_analytics.Effect.{ok, app_fault}
use food_delivery_analytics.Mongo.Document.{Document, matches}
use food_delivery_analytics.Mongo.Driver.{Driver, ReadLaws}
use food_delivery_analytics.Mongo.Rows.{ReadsText, decode_int-int_of, sum_of}
use food_delivery_analytics.Service.Averages.{avg_order-IsAverage}
use food_delivery_analytics.Service.DayRows.{RowFields, ReadsRow, AreRowsOf, query-AreRowsOf}
use food_delivery_analytics.Analytics.Errors.{err_invalid_date_range}
use food_delivery_analytics.Analytics.Enums.{collection_agg_branch_day}
use food_delivery_analytics.Analytics.Types.{BranchDayResponse, DateRange}
use food_delivery_analytics.Analytics.Entity
use food_delivery_analytics.Repository.BranchDay
use food_delivery_analytics.Repository.BranchDay.Effects.{branch_totals}
use food_delivery_analytics.Repository.DayTotals.{day_totals}
use food_delivery_analytics.Repository.Book.{book}
use food_delivery_analytics.Service.Queries.{get_branch_days, branch_response}
use food_delivery_analytics.Service.Reports.{
  ReadsDay, IsReport, query-IsReport, between_same, agreeing_totals,
}
use food_delivery_analytics.Service.DayQueries.{past_guard}

abbrev pub branch_fields : RowFields BranchDayResponse
branch_fields = record {
  date = λ x. x.date;
  orders = λ x. x.orders_count;
  revenue = λ x. x.revenue_minor;
  currency = λ x. x.currency;
  average = λ x. x.avg_order_minor;
}

module _ {W : Type 0} (db : Driver W) (laws : ReadLaws db) where
  branch_reads :
      (d : Document) (w : W) (r : Entity.BranchDay)
      → (BranchDay.decode_row db d w).0 ≡ ok r
      → ReadsDay (λ x. x.date) (λ x. x.orders_count) (λ x. x.revenue_minor) d (branch_response r)
  unfolding BranchDay.decode_row
  branch_reads d w r h = ground (
    arith,
    laws.decode_text_sound (d "date") r.date,
    decode_int-int_of db laws (d "orders_count") r.orders_count,
    decode_int-int_of db laws (d "revenue_sum") r.revenue_sum,
  )

  branch_currency :
      (d : Document) (w : W) (r : Entity.BranchDay)
      → (BranchDay.decode_row db d w).0 ≡ ok r
      → ReadsText (d "currency") r.currency
  unfolding BranchDay.decode_row
  branch_currency d w r h = ground (arith, laws.decode_text_sound (d "currency") r.currency)

  branch-ReadsRow :
      (d : Document) (w : W) (r : Entity.BranchDay)
      → (BranchDay.decode_row db d w).0 ≡ ok r
      → ReadsRow branch_fields d (branch_response r)
  branch-ReadsRow d w r h =
      let (date, orders, revenue) = branch_reads d w r h in
      (
        date,
        orders,
        revenue,
        branch_currency d w r h,
        avg_order-IsAverage r.revenue_sum r.orders_count,
      )

  pub get_branch_days-AreRowsOf :
      (id : ℤ) (range : DateRange) (w : W) (rs : List BranchDayResponse)
      → (get_branch_days db id range w).0 ≡ ok rs
      → AreRowsOf branch_fields "branch_id" id range.from_date range.to_date
          (db.documents w collection_agg_branch_day)
          rs
  unfolding get_branch_days BranchDay.find_by_branch_and_range
  get_branch_days-AreRowsOf id range w rs h =
      let lo = range.from_date in
      let hi = range.to_date in
      let (in_order, found) =
        past_guard (text_gtb lo hi) (app_fault err_invalid_date_range) _ w rs h in
      query-AreRowsOf db laws (BranchDay.decode_row db) branch_response branch_fields
        branch-ReadsRow collection_agg_branch_day "branch_id" id lo hi w rs found

  -- A query for a branch that succeeds has a range that is not reversed; its days lie in the
  -- range, in ascending order; and their orders and revenues add up to those of all documents of
  -- the branch in the range. The driver's reads are assumed to do what is documented.
  pub get_branch_days-IsReport :
      (b : ℤ) (range : DateRange) (w : W) (rs : List BranchDayResponse)
      → (get_branch_days db b range w).0 ≡ ok rs
      → (text_gtb range.from_date range.to_date ≡ false)
        × IsReport
            (λ x. x.date)
            (λ x. x.orders_count)
            (λ x. x.revenue_minor)
            (BranchDay.range_filter b range.from_date range.to_date)
            range.from_date
            range.to_date
            (db.documents w collection_agg_branch_day)
            rs
  unfolding get_branch_days BranchDay.find_by_branch_and_range
  get_branch_days-IsReport b range w rs h =
      let lo = range.from_date in
      let hi = range.to_date in
      let (in_order, found) =
        past_guard (text_gtb lo hi) (app_fault err_invalid_date_range) _ w rs h in
      (
        in_order,
        query-IsReport db laws (BranchDay.decode_row db) branch_response (λ x. x.date)
            (λ x. x.orders_count) (λ x. x.revenue_minor) branch_reads collection_agg_branch_day
            (BranchDay.range_filter b lo hi) lo hi (λ d hit. ground arith) w rs found,
      )

  -- A query for one day of a branch that succeeds adds up to the counters that the events of that
  -- day have moved.
  pub get_branch_days-book :
      (b : ℤ) (day : String) (w : W) (rs : List BranchDayResponse)
      → (get_branch_days db b (record { from_date = day; to_date = day }) w).0 ≡ ok rs
      → (sum_of (λ x. x.orders_count) rs ≡ ((book db w).branch b day).orders)
        × (sum_of (λ x. x.revenue_minor) rs ≡ ((book db w).branch b day).revenue)
  unfolding book branch_totals day_totals
  get_branch_days-book b day w rs h =
      let (_, report) = get_branch_days-IsReport b _ w rs h in
      let g = BranchDay.range_filter b day day in
      let f = BranchDay.key_filter b day in
      let same : (d : Document) → matches g d ≡ matches f d =
        λ d. ground (arith, between_same day (d "date")) in
      let ds = db.documents w collection_agg_branch_day in
      (
        report.orders_add_up ∙ agreeing_totals g f "orders_count" same ds,
        report.revenue_adds_up ∙ agreeing_totals g f "revenue_sum" same ds,
      )

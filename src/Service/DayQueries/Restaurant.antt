-- ===== src/Service/DayQueries/Restaurant.antt =====
-- `GetRestaurantDays` of analytics_service.go, over restaurant_day_repo.go.
use food_delivery_analytics.Prelude.{String, ◌≡◌, ◌∙◌, false, List, arith, text_gtb}
use food_delivery_analytics.Prelude.Int.{ℤ}
use food_delivery_analytics.Effect.{ok, app_fault}
use food_delivery_analytics.Mongo.Document.{Document, matches}
use food_delivery_analytics.Mongo.Driver.{Driver, ReadLaws}
use food_delivery_analytics.Mongo.Rows.{ReadsText, decode_int-int_of, sum_of}
use food_delivery_analytics.Service.Averages.{avg_order-IsAverage}
use food_delivery_analytics.Service.DayRows.{RowFields, ReadsRow, AreRowsOf, query-AreRowsOf}
use food_delivery_analytics.Analytics.Errors.{err_invalid_date_range}
use food_delivery_analytics.Analytics.Enums.{collection_agg_restaurant_day}
use food_delivery_analytics.Analytics.Types.{RestaurantDayResponse, DateRange}
use food_delivery_analytics.Analytics.Entity
use food_delivery_analytics.Repository.RestaurantDay
use food_delivery_analytics.Repository.RestaurantDay.Effects.{restaurant_totals}
use food_delivery_analytics.Repository.DayTotals.{day_totals}
use food_delivery_analytics.Repository.Book.{book}
use food_delivery_analytics.Service.Queries.{get_restaurant_days, restaurant_response}
use food_delivery_analytics.Service.Reports.{
  ReadsDay, IsReport, query-IsReport, between_same, agreeing_totals,
}
use food_delivery_analytics.Service.DayQueries.{past_guard}

abbrev pub restaurant_fields : RowFields RestaurantDayResponse
restaurant_fields = record {
  date = λ x. x.date;
  orders = λ x. x.orders_count;
  revenue = λ x. x.revenue_minor;
  currency = λ x. x.currency;
  average = λ x. x.avg_order_minor;
}

module _ {W : Type 0} (db : Driver W) (laws : ReadLaws db) where
  restaurant_reads :
      (d : Document) (w : W) (r : Entity.RestaurantDay)
      → (RestaurantDay.decode_row db d w).0 ≡ ok r
      → ReadsDay
          (λ x. x.date)
          (λ x. x.orders_count)
          (λ x. x.revenue_minor)
          d
          (restaurant_response r)
  unfolding RestaurantDay.decode_row
  restaurant_reads d w r h = ground (
    arith,
    laws.decode_text_sound (d "date") r.date,
    decode_int-int_of db laws (d "orders_count") r.orders_count,
    decode_int-int_of db laws (d "revenue_sum") r.revenue_sum,
  )

  restaurant_currency :
      (d : Document) (w : W) (r : Entity.RestaurantDay)
      → (RestaurantDay.decode_row db d w).0 ≡ ok r
      → ReadsText (d "currency") r.currency
  unfolding RestaurantDay.decode_row
  restaurant_currency d w r h = ground (arith, laws.decode_text_sound (d "currency") r.currency)

  restaurant-ReadsRow :
      (d : Document) (w : W) (r : Entity.RestaurantDay)
      → (RestaurantDay.decode_row db d w).0 ≡ ok r
      → ReadsRow restaurant_fields d (restaurant_response r)
  restaurant-ReadsRow d w r h =
      let (date, orders, revenue) = restaurant_reads d w r h in
      (
        date,
        orders,
        revenue,
        restaurant_currency d w r h,
        avg_order-IsAverage r.revenue_sum r.orders_count,
      )

  pub get_restaurant_days-AreRowsOf :
      (id : ℤ) (range : DateRange) (w : W) (rs : List RestaurantDayResponse)
      → (get_restaurant_days db id range w).0 ≡ ok rs
      → AreRowsOf restaurant_fields "restaurant_id" id range.from_date range.to_date
          (db.documents w collection_agg_restaurant_day)
          rs
  unfolding get_restaurant_days RestaurantDay.find_by_restaurant_and_range
  get_restaurant_days-AreRowsOf id range w rs h =
      let lo = range.from_date in
      let hi = range.to_date in
      let (in_order, found) =
        past_guard (text_gtb lo hi) (app_fault err_invalid_date_range) _ w rs h in
      query-AreRowsOf db laws (RestaurantDay.decode_row db) restaurant_response restaurant_fields
        restaurant-ReadsRow collection_agg_restaurant_day "restaurant_id" id lo hi w rs found

  -- A query for a restaurant that succeeds has a range that is not reversed; its days lie in the
  -- range, in ascending order; and their orders and revenues add up to those of all documents of
  -- the restaurant in the range. The driver's reads are assumed to do what is documented.
  pub get_restaurant_days-IsReport :
      (r : ℤ) (range : DateRange) (w : W) (rs : List RestaurantDayResponse)
      → (get_restaurant_days db r range w).0 ≡ ok rs
      → (text_gtb range.from_date range.to_date ≡ false)
        × IsReport
            (λ x. x.date)
            (λ x. x.orders_count)
            (λ x. x.revenue_minor)
            (RestaurantDay.range_filter r range.from_date range.to_date)
            range.from_date
            range.to_date
            (db.documents w collection_agg_restaurant_day)
            rs
  unfolding get_restaurant_days RestaurantDay.find_by_restaurant_and_range
  get_restaurant_days-IsReport r range w rs h =
      let lo = range.from_date in
      let hi = range.to_date in
      let (in_order, found) =
        past_guard (text_gtb lo hi) (app_fault err_invalid_date_range) _ w rs h in
      (
        in_order,
        query-IsReport db laws (RestaurantDay.decode_row db) restaurant_response (λ x. x.date)
            (λ x. x.orders_count) (λ x. x.revenue_minor) restaurant_reads
            collection_agg_restaurant_day (RestaurantDay.range_filter r lo hi) lo hi
            (λ d hit. ground arith) w rs found,
      )

  -- A query for one day of a restaurant that succeeds adds up to the counters that the events of that
  -- day have moved.
  pub get_restaurant_days-book :
      (r : ℤ) (day : String) (w : W) (rs : List RestaurantDayResponse)
      → (get_restaurant_days db r (record { from_date = day; to_date = day }) w).0 ≡ ok rs
      → (sum_of (λ x. x.orders_count) rs ≡ ((book db w).restaurant r day).orders)
        × (sum_of (λ x. x.revenue_minor) rs ≡ ((book db w).restaurant r day).revenue)
  unfolding book restaurant_totals day_totals
  get_restaurant_days-book r day w rs h =
      let (_, report) = get_restaurant_days-IsReport r _ w rs h in
      let g = RestaurantDay.range_filter r day day in
      let f = RestaurantDay.key_filter r day in
      let same : (d : Document) → matches g d ≡ matches f d =
        λ d. ground (arith, between_same day (d "date")) in
      let ds = db.documents w collection_agg_restaurant_day in
      (
        report.orders_add_up ∙ agreeing_totals g f "orders_count" same ds,
        report.revenue_adds_up ∙ agreeing_totals g f "revenue_sum" same ds,
      )

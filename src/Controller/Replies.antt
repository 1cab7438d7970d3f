-- ===== src/Controller/Replies.antt =====
-- What analytics_controller.go answers, through `Wrap` of lib/errors/handler.go.
use food_delivery_analytics.Prelude.{
  ℕ, String, ◌≡◌, refl, sym, ap, ◌∙◌, inl, inr, Bool-cases, false, List, Option, text_gtb,
}
use food_delivery_analytics.Prelude.Int.{ℤ}
use food_delivery_analytics.Effect.{
  Result, ok, err, app_fault, duplicate_key, other_fault, lift, pure, bind-eq-ok,
}
use food_delivery_analytics.Mongo.Driver.{Driver, ReadLaws}
use food_delivery_analytics.Analytics.Enums.{
  collection_agg_restaurant_day, collection_agg_branch_day,
}
use food_delivery_analytics.Repository.RestaurantDay
use food_delivery_analytics.Repository.BranchDay
use food_delivery_analytics.Service.Calendar.{Calendar}
use food_delivery_analytics.Service.Queries
use food_delivery_analytics.Service.Reports.{IsReport, IsReport-map}
use food_delivery_analytics.Service.DayRows.{RowFields, AreRowsOf, AreRowsOf-map}
use food_delivery_analytics.Service.DayQueries.Restaurant.{
  restaurant_fields, get_restaurant_days-IsReport, get_restaurant_days-AreRowsOf,
}
use food_delivery_analytics.Service.DayQueries.Branch.{
  branch_fields, get_branch_days-IsReport, get_branch_days-AreRowsOf,
}
use food_delivery_analytics.Http.{
  Request, Response, success, failure, ErrorBody, answer, wrap, send_success,
}
use food_delivery_analytics.Dto.Requests.{
  parse_get_restaurant_days_request, parse_get_branch_days_request,
}
use food_delivery_analytics.Dto.Rows.{
  RestaurantDayDto, BranchDayDto, to_restaurant_day_dtos, to_branch_day_dtos,
}
use food_delivery_analytics.Dto.Parsing.{
  IsId, IsDate, parse_get_restaurant_days_request_accepts, parse_get_branch_days_request_accepts,
  parse_get_restaurant_days_request-RefusesAs400,
}
use food_delivery_analytics.Controller.{get_restaurant_days, get_branch_days}

-- A success is answered only for a result that is one.
answer-success :
    {A : Type 0} (r : Result (Response A)) (s : ℕ) (a : A)
    → answer r ≡ success s a
    → r ≡ ok (success s a)
answer-success (ok x) s a h = ap ok h
answer-success (err (app_fault e)) s a h = cc h
answer-success (err duplicate_key) s a h = cc h
answer-success (err (other_fault e)) s a h = cc h

-- The bounds of a request for days.
abbrev pub AsksDays : Calendar → Request → Type 0
AsksDays cal r =
    IsDate cal (r.query "from")
    × IsDate cal (r.query "to")
    × (text_gtb (r.query "from") (r.query "to") ≡ false)

abbrev pub restaurant_dto_fields : RowFields RestaurantDayDto
restaurant_dto_fields = record {
  date = λ x. x.date;
  orders = λ x. x.orders_count;
  revenue = λ x. x.revenue_minor;
  currency = λ x. x.currency;
  average = λ x. x.avg_order_minor;
}

abbrev pub branch_dto_fields : RowFields BranchDayDto
branch_dto_fields = record {
  date = λ x. x.date;
  orders = λ x. x.orders_count;
  revenue = λ x. x.revenue_minor;
  currency = λ x. x.currency;
  average = λ x. x.avg_order_minor;
}

module _ {W : Type 0} (db : Driver W) (laws : ReadLaws db) (cal : Calendar)
    (atoi : String → Option ℤ) (r : Request) (w : W) where
  -- A success for a restaurant's days has status 200. The path then held a positive number,
  -- and the query two dates that are not reversed. The rows are those of the stored documents with
  -- the restaurant's id and a date between the two, each with the date, the orders, the revenue and the
  -- currency of its document, and with the average order that these give; they are in the order of
  -- their dates, and add up to the documents.
  pub get_restaurant_days_success :
      (s : ℕ) (rows : List RestaurantDayDto)
      → (wrap (get_restaurant_days db cal atoi r) w).0 ≡ success s rows
      → (s ≡ 200)
        × AsksDays cal r
        × ((id : ℤ) × IsId atoi (r.url_param "restaurantId") id
            × IsReport
                (λ x. x.date)
                (λ x. x.orders_count)
                (λ x. x.revenue_minor)
                (RestaurantDay.range_filter id (r.query "from") (r.query "to"))
                (r.query "from")
                (r.query "to")
                (db.documents w collection_agg_restaurant_day)
                rows
            × AreRowsOf restaurant_dto_fields "restaurant_id" id
                (r.query "from")
                (r.query "to")
                (db.documents w collection_agg_restaurant_day)
                rows)
  unfolding get_restaurant_days
  get_restaurant_days_success s rows h =
      let done = answer-success _ s rows h in
      let (req, parsed, next) =
        bind-eq-ok (lift (parse_get_restaurant_days_request cal atoi r)) _ w done in
      let (is_id, from_same, from_date, to_same, to_date) =
        (parse_get_restaurant_days_request_accepts cal atoi r req).0 parsed in
      let fetch =
        Queries.get_restaurant_days db req.restaurant_id
          (record { from_date = req.from_date; to_date = req.to_date }) in
      let fetched_ok = sym (ap (λ x. x.0) next) ∙ done in
      let (found, fetched, last) =
        bind-eq-ok fetch (λ rows. pure (send_success 200 (to_restaurant_day_dtos rows))) w
          fetched_ok in
      let sent : ok (success 200 (to_restaurant_day_dtos found)) ≡ ok (success s rows) =
        sym (ap (λ x. x.0) last) ∙ fetched_ok in
      let status : 200 ≡ s = cc sent in
      let same : to_restaurant_day_dtos found ≡ rows = cc sent in
      let (in_order, report) =
        get_restaurant_days-IsReport db laws req.restaurant_id _ w found fetched in
      let listed = get_restaurant_days-AreRowsOf db laws req.restaurant_id _ w found fetched in
      let ds = db.documents w collection_agg_restaurant_day in
      let g = RestaurantDay.range_filter req.restaurant_id req.from_date req.to_date in
      (
        sym status,
        (from_date, to_date, rw (from_same, to_same) in_order),
        (
          req.restaurant_id,
          is_id,
          rw (from_same, to_same, ← same)
              (IsReport-map _ (λ x. x.date) (λ x. x.orders_count) (λ x. x.revenue_minor) g
                req.from_date req.to_date ds found report),
          rw (from_same, to_same, ← same)
              (AreRowsOf-map _ restaurant_fields restaurant_dto_fields "restaurant_id"
                req.restaurant_id req.from_date req.to_date ds found (λ d row read. read) listed),
        ),
      )

  -- A success for a branch's days has status 200. The path then held positive numbers,
  -- and the query two dates that are not reversed. The rows are those of the stored documents with
  -- the branch's id and a date between the two, each with the date, the orders, the revenue and the
  -- currency of its document, and with the average order that these give; they are in the order of
  -- their dates, and add up to the documents.
  pub get_branch_days_success :
      (s : ℕ) (rows : List BranchDayDto)
      → (wrap (get_branch_days db cal atoi r) w).0 ≡ success s rows
      → (s ≡ 200)
        × AsksDays cal r
        × ((id : ℤ) × IsId atoi (r.url_param "branchId") id
            × IsReport
                (λ x. x.date)
                (λ x. x.orders_count)
                (λ x. x.revenue_minor)
                (BranchDay.range_filter id (r.query "from") (r.query "to"))
                (r.query "from")
                (r.query "to")
                (db.documents w collection_agg_branch_day)
                rows
            × AreRowsOf branch_dto_fields "branch_id" id
                (r.query "from")
                (r.query "to")
                (db.documents w collection_agg_branch_day)
                rows)
  unfolding get_branch_days
  get_branch_days_success s rows h =
      let done = answer-success _ s rows h in
      let (req, parsed, next) =
        bind-eq-ok (lift (parse_get_branch_days_request cal atoi r)) _ w done in
      let (_, is_id, from_same, from_date, to_same, to_date) =
        (parse_get_branch_days_request_accepts cal atoi r req).0 parsed in
      let fetch =
        Queries.get_branch_days db req.branch_id
          (record { from_date = req.from_date; to_date = req.to_date }) in
      let fetched_ok = sym (ap (λ x. x.0) next) ∙ done in
      let (found, fetched, last) =
        bind-eq-ok fetch (λ rows. pure (send_success 200 (to_branch_day_dtos rows))) w fetched_ok in
      let sent : ok (success 200 (to_branch_day_dtos found)) ≡ ok (success s rows) =
        sym (ap (λ x. x.0) last) ∙ fetched_ok in
      let status : 200 ≡ s = cc sent in
      let same : to_branch_day_dtos found ≡ rows = cc sent in
      let (in_order, report) = get_branch_days-IsReport db laws req.branch_id _ w found fetched in
      let listed = get_branch_days-AreRowsOf db laws req.branch_id _ w found fetched in
      let ds = db.documents w collection_agg_branch_day in
      let g = BranchDay.range_filter req.branch_id req.from_date req.to_date in
      (
        sym status,
        (from_date, to_date, rw (from_same, to_same) in_order),
        (
          req.branch_id,
          is_id,
          rw (from_same, to_same, ← same)
              (IsReport-map _ (λ x. x.date) (λ x. x.orders_count) (λ x. x.revenue_minor) g
                req.from_date req.to_date ds found report),
          rw (from_same, to_same, ← same)
              (AreRowsOf-map _ branch_fields branch_dto_fields "branch_id" req.branch_id
                req.from_date req.to_date ds found (λ d row read. read) listed),
        ),
      )

  -- A request for a restaurant's days that is not well-formed, by its number, its dates or their
  -- order, is answered with status 400, and nothing is read or written for it.
  pub get_restaurant_days_bad_request :
      ((id : ℤ) → IsId atoi (r.url_param "restaurantId") id → AsksDays cal r → ⊥)
      → (body : ErrorBody) × (wrap (get_restaurant_days db cal atoi r) w ≡ (failure 400 body, w))
  unfolding get_restaurant_days Queries.get_restaurant_days
  get_restaurant_days_bad_request bad =
      elim (parse_get_restaurant_days_request-RefusesAs400 cal atoi r) [
        | inr (e, refused, status) ↦ rw (refused, status) (_, refl)
        | inl (req, parsed) ↦
            let (is_id, from_same, from_date, to_same, to_date) =
              (parse_get_restaurant_days_request_accepts cal atoi r req).0 parsed in
            elim (Bool-cases (text_gtb req.from_date req.to_date)) [
              | inl reversed ↦ rw (parsed, reversed) (_, refl)
              | inr in_order ↦ absurd (
                  bad req.restaurant_id is_id
                    (from_date, to_date, rw (from_same, to_same) in_order))
            ]
      ]

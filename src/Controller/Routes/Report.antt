-- ===== src/Controller/Routes/Report.antt =====
-- A request for the days of a restaurant, through lib/auth, lib/rbac, the controller and the database.
use mathlib.Core.List.{Memᴰ}
use food_delivery_analytics.Prelude.{ℕ, String, ◌≡◌, ◌⊎◌, inl, inr, Option, some, List}
use food_delivery_analytics.Prelude.Int.{ℤ}
use food_delivery_analytics.Effect.{Action}
use food_delivery_analytics.Mongo.Document.{Time}
use food_delivery_analytics.Mongo.Driver.{Driver, ReadLaws}
use food_delivery_analytics.Analytics.Enums.{perm_analytics_read, collection_agg_restaurant_day}
use food_delivery_analytics.Repository.RestaurantDay
use food_delivery_analytics.Service.Calendar.{Calendar}
use food_delivery_analytics.Service.Reports.{IsReport}
use food_delivery_analytics.Service.DayRows.{AreRowsOf}
use food_delivery_analytics.Http.{wrap, success}
use food_delivery_analytics.Rbac.Cache.{PermissionCache, get_permissions}
use food_delivery_analytics.Rbac.Cache.Answers.{IsSourced, get_permissions_sound}
use food_delivery_analytics.Rbac.Require.{Claims, require}
use food_delivery_analytics.Rbac.Require.Verdicts.{Grants, HasRole}
use food_delivery_analytics.Auth.Token.{Jwt}
use food_delivery_analytics.Auth.Authenticate.{IncomingRequest}
use food_delivery_analytics.Dto.Rows.{RestaurantDayDto}
use food_delivery_analytics.Dto.Parsing.{IsId}
use food_delivery_analytics.Controller.{get_restaurant_days}
use food_delivery_analytics.Controller.Replies.{
  AsksDays, restaurant_dto_fields, get_restaurant_days_success,
}
use food_delivery_analytics.Controller.Routes.{answered, restaurant_days_route, serve_request}
use food_delivery_analytics.Controller.Routes.Access.{
  Presents, serve_request-answered, guarded-answered,
}

module _ {W : Type 0} (db : Driver W) (laws : ReadLaws db) (cal : Calendar)
    (atoi : String → Option ℤ) (now : W → Time × W)
    (get_role_permissions : String → Action W (List String)) (ttl : ℕ) where
  abbrev permissions_lookup : String → Action (PermissionCache W) (List String)
  permissions_lookup = get_permissions now get_role_permissions ttl

  -- The role is the administrator's, or the role that the claims have is given the permission by the
  -- core service, or by its entry if that is younger than the time to live.
  abbrev pub IsAllowed : Claims → PermissionCache W → Type 0
  IsAllowed c pc =
      (c.role ≡ "system_admin")
      ⊎ ((role : String) × HasRole c role
          × ((perms : List String) × IsSourced now get_role_permissions ttl role pc perms
              × Memᴰ perm_analytics_read perms))

  Grants-IsAllowed :
      (c : Claims) (pc : PermissionCache W)
      → Grants permissions_lookup perm_analytics_read c pc
      → IsAllowed c pc
  Grants-IsAllowed c pc (inl admin) = inl admin
  Grants-IsAllowed c pc (inr (role, has, (perms, found, held))) =
      let (entry, same, source, kept) =
        get_permissions_sound now get_role_permissions ttl role pc perms found in
      inr (role, has, (perms, (entry, same, source), held))

  -- The database as the permission check of a request leaves it.
  abbrev pub world_checked : Claims → PermissionCache W → W
  world_checked c pc = (require permissions_lookup perm_analytics_read (some c) pc).1.world

  -- A success for the days of a restaurant is sent only for a token that is signed with the
  -- service's secret, and whose role is the administrator's or has the permission to read analytics:
  -- as the core service answered in this call, or as the cache holds it, younger than the time to
  -- live. The status is 200, and the request held a positive id and two dates in order. The rows are
  -- those of the documents with that id and a date between the two, as the permission check left
  -- them: each has the date, the orders, the revenue and the currency of its document and the average
  -- order that these give, and they are in the order of their dates and add up to the documents.
  pub restaurant_days_route_success :
      (jwt : Jwt) (secret : String) (r : IncomingRequest) (pc : PermissionCache W) (s : ℕ)
      (rows : List RestaurantDayDto)
      → (serve_request permissions_lookup jwt secret
          (restaurant_days_route permissions_lookup db cal atoi)
          r
          pc).0
        ≡ answered (success s rows)
      → (c : Claims) × Presents permissions_lookup jwt secret r pc c
        × IsAllowed c pc
        × (s ≡ 200)
        × AsksDays cal r.request
        × ((id : ℤ) × IsId atoi (r.request.url_param "restaurantId") id
            × IsReport
                (λ x. x.date)
                (λ x. x.orders_count)
                (λ x. x.revenue_minor)
                (RestaurantDay.range_filter id (r.request.query "from") (r.request.query "to"))
                (r.request.query "from")
                (r.request.query "to")
                (db.documents (world_checked c pc) collection_agg_restaurant_day)
                rows
            × AreRowsOf restaurant_dto_fields "restaurant_id" id
                (r.request.query "from")
                (r.request.query "to")
                (db.documents (world_checked c pc) collection_agg_restaurant_day)
                rows)
  restaurant_days_route_success jwt secret r pc s rows h =
      let route = restaurant_days_route permissions_lookup db cal atoi in
      let (c, presented, served) =
        serve_request-answered permissions_lookup jwt secret r pc route (success s rows) h in
      let ((d, same, grants), rest) =
        guarded-answered permissions_lookup perm_analytics_read
          (λ q. wrap (get_restaurant_days db cal atoi q)) (some c) r.request pc (success s rows)
          served in
      let is_same : d ≡ c = cc same in
      let (status, asks, report) =
        get_restaurant_days_success db laws cal atoi r.request (world_checked c pc) s rows rest in
      (c, presented, Grants-IsAllowed c pc (rw (← is_same) grants), status, asks, report)

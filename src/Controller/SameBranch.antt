-- ===== src/Controller/SameBranch.antt =====
-- Which parts of a request the answer of `GetBranchDays` in analytics_controller.go depends on.
use food_delivery_analytics.Prelude.{arith, String, ◌≡◌, refl, List, Option}
use food_delivery_analytics.Prelude.Int.{ℤ}
use food_delivery_analytics.Effect.{Action, Result, ok, err, lift, pure, ◌>>=◌}
use food_delivery_analytics.Mongo.Driver.{Driver}
use food_delivery_analytics.Service.Calendar.{Calendar}
use food_delivery_analytics.Service.Queries
use food_delivery_analytics.Http.{Request, Response, wrap, send_success}
use food_delivery_analytics.Dto.Requests.{
  parse_get_branch_days_request, GetBranchDaysRequest, parse_id, parse_from, parse_to, then_ok,
}
use food_delivery_analytics.Dto.Rows.{BranchDayDto, to_branch_day_dtos}
use food_delivery_analytics.Dto.Parsing.{IsId}
use food_delivery_analytics.Controller.{get_branch_days}

parse_id_accepts :
    (atoi : String → Option ℤ) (s : String) (id : ℤ) → IsId atoi s id → parse_id (atoi s) ≡ ok id
parse_id_accepts atoi s id h = ground arith

-- The answer for a branch's days does not depend on which restaurant the path names.
pub get_branch_days_any_restaurant :
    {W : Type 0} (db : Driver W) (cal : Calendar) (atoi : String → Option ℤ) (r r' : Request)
    (id id' : ℤ) (w : W)
    → IsId atoi (r.url_param "restaurantId") id
    → IsId atoi (r'.url_param "restaurantId") id'
    → r.url_param "branchId" ≡ r'.url_param "branchId"
    → r.query ≡ r'.query
    → wrap (get_branch_days db cal atoi r) w ≡ wrap (get_branch_days db cal atoi r') w
unfolding get_branch_days parse_get_branch_days_request
get_branch_days_any_restaurant {W} db cal atoi r r' id id' w h h' same same' =
    rw (parse_id_accepts atoi _ id h, parse_id_accepts atoi _ id' h', same, same')
      (any_id (parse_id (atoi (r'.url_param "branchId"))) (parse_from cal atoi r')
        (parse_to cal atoi r'))
  where
    asked : ℤ → Result ℤ → Result String → Result String → Result GetBranchDaysRequest
    asked n a b c = then_ok a λ branch_id. then_ok b λ from_date. then_ok c λ to_date. ok (record {
      restaurant_id = n;
      branch_id = branch_id;
      from_date = from_date;
      to_date = to_date;
    })

    reply : ℤ → Result ℤ → Result String → Result String → Action W (Response (List BranchDayDto))
    reply n a b c = lift (asked n a b c) >>= λ req.
        Queries.get_branch_days db req.branch_id
          (record { from_date = req.from_date; to_date = req.to_date })
        >>= λ rows. pure (send_success 200 (to_branch_day_dtos rows))

    any_id :
        (a : Result ℤ) (b c : Result String) → wrap (reply id a b c) w ≡ wrap (reply id' a b c) w
    any_id (ok n) (ok d) (ok d') = refl
    any_id (ok n) (ok d) (err e) = refl
    any_id (ok n) (err e) c = refl
    any_id (err e) b c = refl

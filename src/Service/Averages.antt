-- ===== src/Service/Averages.antt =====
-- The average order of the day queries in analytics_service.go.
use food_delivery_analytics.Prelude.{zero, suc, ◌/◌, ◌≡◌, arith}
use food_delivery_analytics.Prelude.Int.{
  neg_ℕ_parts, IsQuotient, ℤ, pos, negsuc, pos_part, neg_part,
}
use food_delivery_analytics.Service.Queries.{quot_ℤ, avg_order}

-- The average of a revenue over a count: 0 where the count is not positive, and else the quotient
-- of the amounts, rounded towards 0, with the sign of the revenue.
abbrev pub IsAverage : ℤ → ℤ → ℤ → Type 0
IsAverage revenue (negsuc n) average = average ≡ pos 0
IsAverage revenue (pos zero) average = average ≡ pos 0
IsAverage (pos r) (pos (suc n)) average =
    (neg_part average ≡ 0) × IsQuotient r (suc n) (pos_part average)
IsAverage (negsuc r) (pos (suc n)) average =
    (pos_part average ≡ 0) × IsQuotient (suc r) (suc n) (neg_part average)

-- The average order of a row is the quotient of its revenue and its number of orders, rounded
-- towards 0, also for a negative revenue; it is 0 if the number of orders is not positive.
pub avg_order-IsAverage : (revenue orders : ℤ) → IsAverage revenue orders (avg_order revenue orders)
unfolding avg_order quot_ℤ
avg_order-IsAverage (pos r) (negsuc n) = ground arith
avg_order-IsAverage (negsuc r) (negsuc n) = ground arith
avg_order-IsAverage (pos r) (pos zero) = ground arith
avg_order-IsAverage (negsuc r) (pos zero) = ground arith
avg_order-IsAverage (pos r) (pos (suc n)) = ground arith
avg_order-IsAverage (negsuc r) (pos (suc n)) = ground (arith, neg_ℕ_parts (suc r / suc n))

-- ===== src/AppContext.antt =====
-- lib/appcontext/context.go: what a request's context carries. `Claims` stands with its user, in
-- Rbac/Require.
use food_delivery_analytics.Prelude.{String, Option, none, some}
use food_delivery_analytics.Rbac.Require.{Claims}

-- The values under the two keys.
pub record Context : Type 0 where
  pub key_correlation_id : Option String
  pub key_claims : Option Claims

abbrev pub background : Context
background = record { key_correlation_id = none; key_claims = none }

abbrev pub set_correlation_id : Context → String → Context
set_correlation_id ctx id = record ctx { key_correlation_id = some id }

abbrev pub correlation_id : Context → String
correlation_id ctx = elim ctx.key_correlation_id [ none ↦ "" | some v ↦ v ]

abbrev pub set_claims : Context → Claims → Context
set_claims ctx c = record ctx { key_claims = some c }

abbrev pub get_claims : Context → Option Claims
get_claims ctx = ctx.key_claims

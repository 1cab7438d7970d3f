-- ===== src/Analytics/Enums.antt =====
-- The constants of app/analytics/enums.go.
use food_delivery_analytics.Prelude.{String}

abbrev pub perm_analytics_read : String
perm_analytics_read = "analytics:read"

abbrev pub collection_agg_restaurant_day : String
collection_agg_restaurant_day = "agg_restaurant_day"

abbrev pub collection_agg_branch_day : String
collection_agg_branch_day = "agg_branch_day"

abbrev pub collection_agg_platform_day : String
collection_agg_platform_day = "agg_platform_day"

abbrev pub collection_agg_product_day : String
collection_agg_product_day = "agg_product_day"

abbrev pub collection_event_ids : String
collection_event_ids = "event_ids"

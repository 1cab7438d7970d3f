-- ===== src/CoreEvents/Codec.antt =====
-- The envelope of an event (payloads.go), and `json.Unmarshal` into the types that the service
-- reads, as a parameter. Raw JSON is kept as its text.
use food_delivery_analytics.Prelude.{String}
use food_delivery_analytics.Effect.{Result}
use food_delivery_analytics.Analytics.Types.{
  OnOrderPlacedInput, OnOrderDeliveredInput, OnPaymentSucceededInput, OnOrderCancelledInput,
}

pub record Envelope : Type 0 where
  pub event_id : String
  pub event_type : String
  pub payload : String

pub record RbacPermissionsChangedPayload : Type 0 where
  pub role_name : String

pub record Codec : Type 0 where
  pub envelope : String → Result Envelope
  pub rbac_permissions_changed : String → Result RbacPermissionsChangedPayload
  pub order_placed : String → Result OnOrderPlacedInput
  pub order_delivered : String → Result OnOrderDeliveredInput
  pub payment_succeeded : String → Result OnPaymentSucceededInput
  pub order_cancelled : String → Result OnOrderCancelledInput

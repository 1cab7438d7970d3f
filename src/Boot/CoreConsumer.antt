-- ===== src/Boot/CoreConsumer.antt =====
-- The function that `Run` of lib/boot/boot.go hands to the second broker: it drops the cached
-- permissions of a role whose permissions have changed.
pub mod Invalidates
use food_delivery_analytics.Prelude.{String, ◌==◌, if◌then◌else◌}
use food_delivery_analytics.Effect.{Action, Result, ok, err}
use food_delivery_analytics.CoreEvents.Codec.{Codec, Envelope, RbacPermissionsChangedPayload}
use food_delivery_analytics.CoreEvents.Consumer.{Message}
use food_delivery_analytics.Rbac.Cache.{PermissionCache, invalidate}
use food_delivery_analytics.Messaging.{Channel}

-- A call that acts on the outside world, beside the cache.
abbrev pub beside_cache : {W A : Type 0} → Action W A → Action (PermissionCache W) A
beside_cache m pc = let (r, w) = m pc.world in (r, record pc { world = w })

abbrev pub channel_beside_cache : {W : Type 0} → Channel W → Channel (PermissionCache W)
channel_beside_cache ch = record {
  ack = λ tag multiple. beside_cache (ch.ack tag multiple);
  nack = λ tag multiple requeue. beside_cache (ch.nack tag multiple requeue);
}

module _ {W : Type 0} where
  abbrev pub drop_role :
      Message (PermissionCache W)
      → Result RbacPermissionsChangedPayload
      → Action (PermissionCache W) (Unit {0})
  drop_role msg (err _) pc = msg.ack pc
  drop_role msg (ok payload) pc =
      if payload.role_name == "" then msg.ack pc else msg.ack (invalidate payload.role_name pc)

  abbrev pub read_core_event :
      Codec → Message (PermissionCache W) → Result Envelope → Action (PermissionCache W) (Unit {0})
  read_core_event codec msg (err _) pc = msg.ack pc
  read_core_event codec msg (ok env) pc =
      drop_role msg (codec.rbac_permissions_changed env.payload) pc

  unfoldable pub on_core_event :
      Codec → Message (PermissionCache W) → Action (PermissionCache W) (Unit {0})
  on_core_event codec msg pc = read_core_event codec msg (codec.envelope msg.body) pc

-- ===== src/Boot/CoreConsumer/Invalidates.antt =====
-- What the events of the core service do to the cached permissions.
use food_delivery_analytics.Prelude.{
  ℕ, String, ◌≡◌, refl, ◌∙◌, ◌⊎◌, inl, inr, false, none, List, [], ◌∷◌, ◌++◌, ◌==◌, eq_refl,
  Bool-cases,
}
use food_delivery_analytics.Effect.{Action, Result, ok, err}
use food_delivery_analytics.Mongo.Document.{Time}
use food_delivery_analytics.CoreEvents.Codec.{Codec, Envelope, RbacPermissionsChangedPayload}
use food_delivery_analytics.CoreEvents.Consumer.{Message}
use food_delivery_analytics.Rbac.Cache.{PermissionCache, invalidate, get_permissions}
use food_delivery_analytics.Rbac.Cache.Answers.{get_permissions_missing}
use food_delivery_analytics.Messaging.{Channel, Delivery, message_of, deliver, consume_loop}
use food_delivery_analytics.Boot.CoreConsumer.{
  channel_beside_cache, drop_role, read_core_event, on_core_event,
}

-- No entry is added or changed: each is as it was, or gone.
abbrev pub OnlyDrops : {W : Type 0} → PermissionCache W → PermissionCache W → Type 0
OnlyDrops before after = (k : String) → (after.cache k ≡ none) ⊎ (after.cache k ≡ before.cache k)

-- The event says that the permissions of a role have changed.
abbrev pub TellsOf : Codec → Delivery → String → Type 0
TellsOf codec d role =
    (env : Envelope) × (codec.envelope d.body ≡ ok env)
    × (codec.rbac_permissions_changed env.payload ≡ ok (record { role_name = role }))

module _ {W : Type 0} (ch : Channel W) (codec : Codec) where
  abbrev run_delivery : Delivery → PermissionCache W → PermissionCache W
  run_delivery = deliver (channel_beside_cache ch) (on_core_event codec)

  abbrev message : Delivery → Message (PermissionCache W)
  message = message_of (channel_beside_cache ch)

  -- Settling a delivery leaves the cache as the handler has left it.
  deliver_cache :
      (d : Delivery) (pc : PermissionCache W)
      → (run_delivery d pc).cache ≡ (on_core_event codec (message d) pc).1.cache
  unfolding deliver
  deliver_cache d pc =
      split (on_core_event codec (message d) pc).0 (on_core_event codec (message d) pc).1
    where
      split :
          (r : Result (Unit {0})) (after : PermissionCache W)
          → let left : PermissionCache W = elim r [
            | ok _ ↦ after
            | err _ ↦ ((channel_beside_cache ch).nack d.tag false false after).1
          ] in
            left.cache ≡ after.cache
      split (ok _) after = refl
      split (err _) after = refl

  invalidate-OnlyDrops :
      (role : String) (pc : PermissionCache W) → OnlyDrops pc (invalidate role pc)
  unfolding invalidate
  invalidate-OnlyDrops role pc k = elim (Bool-cases (k == role)) [
    | inl same ↦ inl (rw same refl)
    | inr other ↦ inr (rw other refl)
  ]

  drop_role-OnlyDrops :
      (d : Delivery) (r : Result RbacPermissionsChangedPayload) (pc : PermissionCache W)
      → OnlyDrops pc (drop_role (message d) r pc).1
  drop_role-OnlyDrops d (err e) pc k = inr refl
  drop_role-OnlyDrops d (ok payload) pc k = elim (Bool-cases (payload.role_name == "")) [
    | inl empty ↦ rw empty (inr refl)
    | inr named ↦ rw named (invalidate-OnlyDrops payload.role_name pc k)
  ]

  read_core_event-OnlyDrops :
      (d : Delivery) (r : Result Envelope) (pc : PermissionCache W)
      → OnlyDrops pc (read_core_event codec (message d) r pc).1
  read_core_event-OnlyDrops d (err e) pc k = inr refl
  read_core_event-OnlyDrops d (ok env) pc k =
      drop_role-OnlyDrops d (codec.rbac_permissions_changed env.payload) pc k

  deliver-OnlyDrops : (d : Delivery) (pc : PermissionCache W) → OnlyDrops pc (run_delivery d pc)
  unfolding on_core_event
  deliver-OnlyDrops d pc k =
      rw (deliver_cache d pc) (read_core_event-OnlyDrops d (codec.envelope d.body) pc k)

  deliver_dropped :
      (d : Delivery) (role : String) (pc : PermissionCache W)
      → pc.cache role ≡ none
      → (run_delivery d pc).cache role ≡ none
  deliver_dropped d role pc gone = elim (deliver-OnlyDrops d pc role) [
    | inl now_gone ↦ now_gone
    | inr same ↦ same ∙ gone
  ]

  consume_loop_dropped :
      (ds : List Delivery) (role : String) (pc : PermissionCache W)
      → pc.cache role ≡ none
      → (consume_loop (channel_beside_cache ch) (on_core_event codec) ds pc).cache role ≡ none
  unfolding consume_loop
  consume_loop_dropped [] role pc gone = gone
  consume_loop_dropped (d ∷ ds) role pc gone =
      consume_loop_dropped ds role (run_delivery d pc) (deliver_dropped d role pc gone)

  deliver_drops :
      (d : Delivery) (role : String) (pc : PermissionCache W)
      → (role == "") ≡ false
      → TellsOf codec d role
      → (run_delivery d pc).cache role ≡ none
  unfolding on_core_event invalidate
  deliver_drops d role pc named (env, read, changed) =
      rw (deliver_cache d pc) (rw (read, read_core_event) (rw (changed, named, eq_refl role) refl))

  consume_loop_drops :
      (before after : List Delivery) (d : Delivery) (role : String) (pc : PermissionCache W)
      → (role == "") ≡ false
      → TellsOf codec d role
      → (consume_loop
            (channel_beside_cache ch)
            (on_core_event codec)
            (before ++ d ∷ after)
            pc).cache
          role
        ≡ none
  unfolding consume_loop
  consume_loop_drops [] after d role pc named tells =
      consume_loop_dropped after role (run_delivery d pc) (deliver_drops d role pc named tells)
  consume_loop_drops (b ∷ before) after d role pc named tells =
      consume_loop_drops before after d role (run_delivery b pc) named tells

  module _ (now : W → Time × W) (get_role_permissions : String → Action W (List String))
      (ttl : ℕ) where
    -- Once an event that tells of the changed permissions of a role with a name is among the
    -- deliveries, whatever comes before and after it, the next lookup of that role answers what the
    -- core service does.
    pub consume_loop_refreshes :
        (before after : List Delivery) (d : Delivery) (role : String) (pc : PermissionCache W)
        → (role == "") ≡ false
        → TellsOf codec d role
        → let pc' =
            consume_loop (channel_beside_cache ch) (on_core_event codec) (before ++ d ∷ after) pc in
          (get_permissions now get_role_permissions ttl role pc').0
          ≡ (get_role_permissions role pc'.world).0
    consume_loop_refreshes before after d role pc named tells =
        get_permissions_missing now get_role_permissions ttl role _
          (consume_loop_drops before after d role pc named tells)

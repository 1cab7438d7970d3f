-- ===== src/Service/Writes.antt =====
-- Each write of the repositories, as one step of the abstract view.
use food_delivery_analytics.Prelude.{String, true, false}
use food_delivery_analytics.Prelude.Int.{ℤ}
use food_delivery_analytics.Mongo.Driver.{Driver, WriteLaws}
use food_delivery_analytics.Repository.DayTotals.{
  placed_change, delivered_change, paid_change, cancelled_change,
}
use food_delivery_analytics.Repository.Book.{
  on_key, on_day, restaurant_step, branch_step, platform_step,
}
use food_delivery_analytics.Repository.RestaurantDay
use food_delivery_analytics.Repository.BranchDay
use food_delivery_analytics.Repository.PlatformDay
use food_delivery_analytics.Service.Refinement.{Refines}

module _ {W : Type 0} (db : Driver W) (laws : WriteLaws db) where
  pub restaurant_upsert :
      (r : ℤ) (d currency : String) (n : ℤ)
      → Refines db
          (RestaurantDay.upsert db r d currency n)
          (λ b. record b { restaurant = on_key r d true (placed_change n) b.restaurant })
  restaurant_upsert r d currency n = record {
    at = λ w.
        restaurant_step db laws (RestaurantDay.upsert db r d currency n) w r d true
          (placed_change n) (RestaurantDay.Effects.upsert_frame db laws r d currency n)
          (RestaurantDay.Effects.upsert_changes db laws w r d currency n);
  }

  pub restaurant_incr_delivery :
      (r : ℤ) (d : String) (n : ℤ)
      → Refines db
          (RestaurantDay.incr_delivery db r d n)
          (λ b. record b { restaurant = on_key r d false (delivered_change n) b.restaurant })
  restaurant_incr_delivery r d n = record {
    at = λ w.
        restaurant_step db laws (RestaurantDay.incr_delivery db r d n) w r d false
          (delivered_change n) (RestaurantDay.Effects.incr_delivery_frame db laws r d n)
          (RestaurantDay.Effects.incr_delivery_changes db laws w r d n);
  }

  pub restaurant_incr_revenue :
      (r : ℤ) (d : String) (n : ℤ)
      → Refines db
          (RestaurantDay.incr_revenue db r d n)
          (λ b. record b { restaurant = on_key r d false (paid_change n) b.restaurant })
  restaurant_incr_revenue r d n = record {
    at = λ w.
        restaurant_step db laws (RestaurantDay.incr_revenue db r d n) w r d false (paid_change n)
          (RestaurantDay.Effects.incr_revenue_frame db laws r d n)
          (RestaurantDay.Effects.incr_revenue_changes db laws w r d n);
  }

  pub restaurant_decr_order :
      (r : ℤ) (d : String)
      → Refines db
          (RestaurantDay.decr_order db r d)
          (λ b. record b { restaurant = on_key r d false cancelled_change b.restaurant })
  restaurant_decr_order r d = record {
    at = λ w.
        restaurant_step db laws (RestaurantDay.decr_order db r d) w r d false cancelled_change
          (RestaurantDay.Effects.decr_order_frame db laws r d)
          (RestaurantDay.Effects.decr_order_changes db laws w r d);
  }

  pub platform_upsert :
      (d currency : String) (n : ℤ)
      → Refines db
          (PlatformDay.upsert db d currency n)
          (λ b. record b { platform = on_day d true (placed_change n) b.platform })
  platform_upsert d currency n = record {
    at = λ w.
        platform_step db laws (PlatformDay.upsert db d currency n) w d true (placed_change n)
          (PlatformDay.Effects.upsert_frame db laws d currency n)
          (PlatformDay.Effects.upsert_changes db laws w d currency n);
  }

  pub platform_incr_revenue :
      (d : String) (n : ℤ)
      → Refines db
          (PlatformDay.incr_revenue db d n)
          (λ b. record b { platform = on_day d false (paid_change n) b.platform })
  platform_incr_revenue d n = record {
    at = λ w.
        platform_step db laws (PlatformDay.incr_revenue db d n) w d false (paid_change n)
          (PlatformDay.Effects.incr_revenue_frame db laws d n)
          (PlatformDay.Effects.incr_revenue_changes db laws w d n);
  }

  pub platform_decr_order :
      (d : String)
      → Refines db
          (PlatformDay.decr_order db d)
          (λ b. record b { platform = on_day d false cancelled_change b.platform })
  platform_decr_order d = record {
    at = λ w.
        platform_step db laws (PlatformDay.decr_order db d) w d false cancelled_change
          (PlatformDay.Effects.decr_order_frame db laws d)
          (PlatformDay.Effects.decr_order_changes db laws w d);
  }

  pub branch_upsert :
      (k : ℤ) (d currency : String) (n : ℤ)
      → Refines db
          (BranchDay.upsert db k d currency n)
          (λ b. record b { branch = on_key k d true (placed_change n) b.branch })
  branch_upsert k d currency n = record {
    at = λ w.
        branch_step db laws (BranchDay.upsert db k d currency n) w k d true (placed_change n)
          (BranchDay.Effects.upsert_frame db laws k d currency n)
          (BranchDay.Effects.upsert_changes db laws w k d currency n);
  }

  pub branch_incr_delivery :
      (k : ℤ) (d : String) (n : ℤ)
      → Refines db
          (BranchDay.incr_delivery db k d n)
          (λ b. record b { branch = on_key k d false (delivered_change n) b.branch })
  branch_incr_delivery k d n = record {
    at = λ w.
        branch_step db laws (BranchDay.incr_delivery db k d n) w k d false (delivered_change n)
          (BranchDay.Effects.incr_delivery_frame db laws k d n)
          (BranchDay.Effects.incr_delivery_changes db laws w k d n);
  }

  pub branch_incr_revenue :
      (k : ℤ) (d : String) (n : ℤ)
      → Refines db
          (BranchDay.incr_revenue db k d n)
          (λ b. record b { branch = on_key k d false (paid_change n) b.branch })
  branch_incr_revenue k d n = record {
    at = λ w.
        branch_step db laws (BranchDay.incr_revenue db k d n) w k d false (paid_change n)
          (BranchDay.Effects.incr_revenue_frame db laws k d n)
          (BranchDay.Effects.incr_revenue_changes db laws w k d n);
  }

  pub branch_decr_order :
      (k : ℤ) (d : String)
      → Refines db
          (BranchDay.decr_order db k d)
          (λ b. record b { branch = on_key k d false cancelled_change b.branch })
  branch_decr_order k d = record {
    at = λ w.
        branch_step db laws (BranchDay.decr_order db k d) w k d false cancelled_change
          (BranchDay.Effects.decr_order_frame db laws k d)
          (BranchDay.Effects.decr_order_changes db laws w k d);
  }

-- ===== src/Repository.antt =====
-- app/analytics/repository: one module for each collection.
pub mod RestaurantDay
pub mod BranchDay
pub mod PlatformDay
pub mod ProductDay
pub mod EventIds
pub mod DayTotals
pub mod Book
pub mod Progress
pub mod Indexes
pub mod Untouched

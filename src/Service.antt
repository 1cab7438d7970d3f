-- ===== src/Service.antt =====
-- app/analytics/service/analytics_service.go
pub mod Calendar
pub mod Events
pub mod Ledger
pub mod Refinement
pub mod Writes
pub mod Handlers
pub mod Footprint
pub mod Queries
pub mod Reports
pub mod DayQueries
pub mod Averages
pub mod DayRows
pub mod Progress

-- ===== src/Analytics.antt =====
-- The data of app/analytics: event inputs, stored rows, responses, errors and names.
pub mod Types
pub mod Entity
pub mod Errors
pub mod Enums

-- ===== src/Tests.antt =====
-- Runs of the service on a database in memory, and the theorems at concrete inputs.
mod Fixtures
mod Events
mod Queries
mod Deliveries
mod Replies
mod Permissions
mod Tokens
mod Routes
mod Outage
mod Indexes
mod Broker
mod Requests
mod Start
mod Settlements

-- ===== src/Mongo.antt =====
-- MongoDB as the service uses it: the filters and updates that the repositories build, the driver's
-- calls as a parameter, and what its documentation says of them as hypotheses.
pub mod Document
pub mod Connection
pub mod Driver
pub mod Untouched
pub mod Totals
pub mod Queries
pub mod Rows
pub mod Timed
pub mod Up
pub mod Keeps
pub mod Memory

-- ===== src/Rbac.antt =====
-- lib/rbac: the cache of role permissions (cache.go) and the check of a request (middleware.go).
pub mod Cache
pub mod Require
pub mod Outage

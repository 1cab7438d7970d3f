-- ===== src/Auth.antt =====
-- lib/auth: the token of a request (jwt.go) and the check of it (middleware.go).
pub mod Token
pub mod Tokens
pub mod Authenticate

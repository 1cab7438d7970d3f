-- ===== src/Dto.antt =====
-- app/analytics/dto: the parsing of requests and the rows of responses.
pub mod Requests
pub mod Parsing
pub mod Rows

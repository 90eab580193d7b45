-- ===== src/Api.antt =====
-- The API service: apps/api/src.
pub mod Token

-- ===== src/Api.antt =====
-- backend/api: the modules, the requests and the responses that its components exchange.
pub mod Types
pub mod Response

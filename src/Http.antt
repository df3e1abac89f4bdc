-- ===== src/Http.antt =====
-- backend/webserver/http: the parsing of a request.
pub mod Request
pub mod Headers
pub mod Body

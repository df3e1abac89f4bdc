-- ===== src/Server.antt =====
-- backend/webserver/http/StaticServer.cpp, RequestSecurity.cpp, StaticContent.cpp: the requests to the
-- web server.
pub mod Security
pub mod Upgrade
pub mod Content
pub mod State
pub mod Account
pub mod Route
pub mod Access
pub mod Keeps
pub mod Untouched

-- ===== src/Auth.antt =====
-- backend/webserver/auth/AuthManager.{hpp,cpp}: the one account, its file and its sessions.
pub mod State
pub mod File
pub mod Manager
pub mod Session
pub mod RoundTrip
pub mod Failure
pub mod Lifetime
pub mod Invariant

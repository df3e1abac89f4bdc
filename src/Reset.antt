-- ===== src/Reset.antt =====
-- backend/webserver/auth/PasswordReset.{hpp,cpp}: the reset allowance of a boot.
pub mod State
pub mod Marker
pub mod File
pub mod Process
pub mod Calls
pub mod Spent
pub mod Once
pub mod Allowance
pub mod Cold
pub mod Clear

-- ===== src/Login.antt =====
-- backend/config/LoginState.{hpp,cpp}: the login restriction that survives the processes.
pub mod State
pub mod Laws

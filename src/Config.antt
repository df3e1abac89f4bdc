-- ===== src/Config.antt =====
-- backend/config/LayeredConfig.{hpp,cpp}: the layered configuration and its overlay.
pub mod Line
pub mod Layers
pub mod Store
pub mod Overlay
pub mod Meaning
pub mod Written
pub mod Update
pub mod Accepts
pub mod Effect
pub mod Retain

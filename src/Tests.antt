-- ===== src/Tests.antt =====
-- Concrete runs: an instance of the parameters, and the theorems at inputs where they hold.
mod Codec
mod Sample
mod Auth
mod Reset
mod Config
mod Login
mod Proxy
mod Http
mod Factory
mod Control
mod Router
mod Firmware
mod Server

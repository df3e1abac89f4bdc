-- ===== src/Factory.antt =====
-- backend/api/modules/FactoryResetRuntime.cpp: the factory reset, its requests and its process.
pub mod Evse
pub mod State
pub mod Events
pub mod Coverage
pub mod Runs
pub mod Invariant
pub mod Answers
pub mod Guard
pub mod Speaks

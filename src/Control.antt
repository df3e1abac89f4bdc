-- ===== src/Control.antt =====
-- backend/api/SystemControlHandler.cpp: the queue of requests in front of the modules.
pub mod State
pub mod Queue
pub mod Events
pub mod Groups
pub mod Order
pub mod Runs
pub mod Fifo
pub mod Sound
pub mod Exclusive
pub mod Returns
pub mod Busy

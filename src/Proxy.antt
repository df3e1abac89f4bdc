-- ===== src/Proxy.antt =====
-- backend/webserver/ws and backend/webserver/ui: the proxy between a browser and the API process, and
-- the tracker that gives the user interface to one session at a time.
pub mod Session
pub mod Events
pub mod Local
pub mod Occupancy
pub mod Queue
pub mod Bounds
pub mod Order
pub mod Flow
pub mod Quiet
pub mod Delivery

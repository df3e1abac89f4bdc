-- ===== src/Router.antt =====
-- backend/api/RequestHandler.cpp: the requests of the browser, and the responses to it.
pub mod State
pub mod Send
pub mod Respond
pub mod Message
pub mod Runs
pub mod Table
pub mod Flow
pub mod Steps
pub mod Isolation
pub mod Reach
pub mod Gate
pub mod Frame

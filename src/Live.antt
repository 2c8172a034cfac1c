-- ===== src/Live.antt =====
-- services/operationalEvents.ts: the stream of operational events that keeps the console live.
pub mod Frames
pub mod Events
pub mod Stream
mod Tests
pub mod Connection

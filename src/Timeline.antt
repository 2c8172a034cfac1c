-- ===== src/Timeline.antt =====
-- appHelpers.jsx: how the rows of an incident's timeline are read.
pub mod Order
pub mod Rows
pub mod Sections
pub mod Path
pub mod Stages
pub mod Events
mod Tests

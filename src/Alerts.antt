-- ===== src/Alerts.antt =====
-- The alert stream of frontend/react/src/appHelpers.jsx.
pub mod Scope
pub mod Channel
pub mod Identity
pub mod Limits
pub mod Canonical
pub mod Merge
pub mod Mapping
pub mod Project
mod Tests

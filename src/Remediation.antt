-- ===== src/Remediation.antt =====
-- appHelpers.jsx: the plan, the commands and the outcome of a remediation.
pub mod Plan
pub mod Commands
pub mod Outcome
pub mod Shell
mod Tests

-- ===== src/Navigation.antt =====
-- app/navigation.ts and app/permissions.ts: the destinations of the console, and who may see them.
pub mod Kinds
pub mod Items
pub mod Paths
pub mod Permissions
mod Tests

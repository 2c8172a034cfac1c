-- ===== src/Runtime.antt =====
-- app/routeRuntime.tsx: the store from which the routes read what the application shows.
pub mod Store
mod Tests

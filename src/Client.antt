-- ===== src/Client.antt =====
-- services/apiClient.ts, services/alerts.ts, app/queryClient.ts and app/resilientLazy.ts: requests
-- whose response is checked, and routes whose code is loaded late.
pub mod Request
pub mod Alerts
pub mod Lazy
mod Tests

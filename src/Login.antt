-- ===== src/Login.antt =====
-- services/oidcClient.ts: the login at an identity provider, an authorization code flow with a proof
-- key (PKCE).
pub mod Encoding
pub mod Flow
mod Tests

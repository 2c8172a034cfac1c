-- ===== src/Onboarding.antt =====
-- domain/onboardingSources.ts, onboardingUtils.js and onboardingConfig.js: what the onboarding of a
-- project makes of its form and its documents.
pub mod Sources
pub mod Tools
pub mod Documents
mod Tests

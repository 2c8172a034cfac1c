-- ===== src/Live/Connection/Overlap.antt =====
-- services/operationalEvents.ts: a page that is hidden and shown while a retry waits.

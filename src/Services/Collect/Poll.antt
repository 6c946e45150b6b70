-- ===== src/Services/Collect/Poll.antt =====
-- How long the collector sleeps.

-- ===== src/Auth/Audit/Counters.antt =====
-- Erasing one's history and the counters of the limits.

-- ===== src/Publisher.antt =====
-- The match publisher: workers/match-publisher/src.
pub mod Batch
pub mod Worker
pub mod Tests

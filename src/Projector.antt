-- ===== src/Projector.antt =====
-- The HAF projector: workers/haf-projector/src.
pub mod Model
pub mod Store
pub mod Chain
pub mod InMemory
pub mod Postgres
pub mod Hafah
pub mod Sync
pub mod Validator
pub mod Worker
pub mod Tests

-- ===== src/Jobs.antt =====
-- mitra_models/src/background_jobs: the queue of background jobs.
pub mod Types
pub mod Queries
pub mod Events
pub mod Lease
pub mod Batch
mod Tests

-- ===== src/Jobs.antt =====
-- The scheduler's jobs.
pub mod Locks
pub mod Runs
pub mod Free
pub mod Schedule
pub mod Tests

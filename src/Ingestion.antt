-- ===== src/Ingestion.antt =====
-- The ingestion of prices from external sources.
pub mod Pages
pub mod Records
pub mod Client
pub mod Metadata
pub mod Runner
pub mod Tests

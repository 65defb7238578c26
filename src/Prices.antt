-- ===== src/Prices.antt =====
-- The prices that are ingested.
pub mod Names
pub mod Validator
pub mod Accepted
pub mod Series
pub mod District
pub mod Tests

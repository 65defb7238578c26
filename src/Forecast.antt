-- ===== src/Forecast.antt =====
-- The forecasts of prices.
pub mod Models
pub mod Rows
pub mod Engine
pub mod Served
pub mod Tests

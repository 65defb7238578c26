-- ===== src/Advice.antt =====
-- The advice to sell, hold or wait: notifications/sale_window.py.
pub mod Supply
pub mod Window
pub mod Lot
pub mod Texts
pub mod Tests
pub mod TextTests

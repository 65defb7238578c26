-- ===== src/Market.antt =====
-- The marketplace: lots, offers, payments, bookings, and the buyers' reliability.
pub mod Reliability
pub mod Payments
pub mod Lots
pub mod Offers
pub mod Logistics
pub mod Grievances
pub mod Admin
pub mod Samples
pub mod Tests
pub mod LotTests

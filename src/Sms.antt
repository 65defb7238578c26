-- ===== src/Sms.antt =====
-- The SMS channel: phone numbers, the inbound webhook, the outbound cap, and price alerts.
pub mod Gateway
pub mod Phone
pub mod Outbound
pub mod Replay
pub mod Inbound
pub mod Alerts
pub mod AlertApi
pub mod AlertTests
pub mod InboundTests
pub mod Tests

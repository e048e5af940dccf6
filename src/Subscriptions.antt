-- ===== src/Subscriptions.antt =====
-- crates/subscriptions: the license aggregate.
pub mod Repository
pub mod Service
pub mod OneLive
pub mod Conversion
pub mod Expiry
pub mod Redelivery
mod Tests

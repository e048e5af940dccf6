-- ===== src/Common.antt =====
-- What every service shares from crates/common: input validation, authentication and the replay cache.
pub mod Auth
pub mod ReplayCache
pub mod ProxyProtocol
pub mod Validation
mod Tests

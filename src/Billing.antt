-- ===== src/Billing.antt =====
-- crates/billing: how a subscription is paid for.
pub mod Types
pub mod Gateway
pub mod Repository
pub mod Ports
pub mod Catalog
pub mod Licenses
pub mod Promos
pub mod Plans
pub mod Run
pub mod Webhook
mod Tests

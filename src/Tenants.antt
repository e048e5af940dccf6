-- ===== src/Tenants.antt =====
-- crates/tenants: accounts, enrollment and the networks of the tenants.
pub mod Repository
pub mod Enrollment
pub mod Service
pub mod Grants
pub mod Reconcile
pub mod Identities
mod Tests

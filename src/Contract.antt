-- ===== src/Contract.antt =====
-- crates/common/src/contract.rs: the types that cross the service boundary.
pub mod Provisioning
pub mod License

-- ===== src/Ddns.antt =====
-- The regional DNS plane, crates/ddns.
pub mod Repository
pub mod Run
pub mod Service
mod Tests

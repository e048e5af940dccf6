-- ===== src/Tunneller.antt =====
-- crates/tunneller: the reverse-tunnel edge.
pub mod Registry
pub mod Forward
pub mod Handler
pub mod Routes
pub mod Sni
pub mod Node
mod Tests

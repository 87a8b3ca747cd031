-- ===== src/Crdt.antt =====
-- src/crdt_state.rs
pub mod Register
pub mod GrowSet
pub mod Counter
pub mod OrSet
pub mod Registry
pub mod World

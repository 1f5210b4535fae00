-- ===== src/Serialization.antt =====
-- src/serialization.rs: nodes and graphs as values that hold ids in place of pointers, and back.
pub mod Format
pub mod Restoring
pub mod Saving
pub mod Graphs
pub mod Pointers

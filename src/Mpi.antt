-- ===== src/Mpi.antt =====
-- src/detached/mpi.rs and its children: how `RelRc` objects travel between two processes.
pub mod Message
pub mod Transfer
pub mod Delivery
pub mod Protocol
pub mod Polling

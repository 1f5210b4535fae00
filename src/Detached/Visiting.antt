-- ===== src/Detached/Visiting.antt =====
-- The order in which `post_order_for_each` of src/detached.rs visits.
pub mod Ending
pub mod Once

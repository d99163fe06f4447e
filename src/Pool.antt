-- ===== src/Pool.antt =====
-- rust/src/pool.rs: the pool of pre-warmed connections.
pub mod Shelf
pub mod Take
pub mod Bound

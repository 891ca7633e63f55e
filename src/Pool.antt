-- ===== src/Pool.antt =====
-- `UringPool` of pyuring/pool.py.
pub mod Rings
pub mod Indexing
pub mod Tests

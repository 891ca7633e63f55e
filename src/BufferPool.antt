-- ===== src/BufferPool.antt =====
-- `BufferPool` of pyuring/native/buffer_pool.py, over the pool of csrc/uring_wrap.c.
pub mod Native
pub mod Methods
pub mod Sizes
pub mod History
pub mod Grow
pub mod Tests

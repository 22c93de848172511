-- ===== src/WorkerPool.antt =====
-- The worker pool: src/thread_pool.cpp and include/cache/thread_pool.h.
pub mod Defs
pub mod Steps
pub mod Runs
mod Tests

-- ===== src/Cache.antt =====
-- The LRU cache: src/lru_cache.cpp and include/cache/lru_cache.h.
pub mod Index
pub mod Entries
pub mod Defs
pub mod Recency
pub mod Shape
pub mod Invariant
pub mod Room
pub mod Calls
pub mod Methods
pub mod Put
pub mod Refinement
pub mod Behaviour
pub mod Sample
mod Tests

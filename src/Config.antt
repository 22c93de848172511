-- ===== src/Config.antt =====
-- Configuration: src/config.cpp and include/cache/config.h.
pub mod Size
pub mod Server
pub mod Args
mod Tests

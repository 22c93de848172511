-- ===== src/Connection.antt =====
-- One client connection: src/connection.cpp and include/cache/connection.h.
pub mod Events
pub mod Defs
pub mod Frame
pub mod Input
pub mod Output
pub mod Flushing
pub mod Draining
mod Tests

-- ===== src/Client.antt =====
-- The blocking client: client/cache_client.cpp and client/cache_client.h.
pub mod Defs
pub mod Receiving
pub mod Sending
pub mod Outcomes
pub mod Executing
mod Tests

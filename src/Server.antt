-- ===== src/Server.antt =====
-- The server: src/server.cpp and include/cache/server.h.
pub mod Jobs
pub mod Serving
pub mod Reports
pub mod Admission
pub mod Exchange
pub mod Descriptors
pub mod Defs
pub mod Loop
pub mod Invariant
pub mod Handlers
pub mod Keeping
pub mod Interest
pub mod Steps
pub mod Watching
pub mod Opening
pub mod Draining
pub mod Shutdown
pub mod LoopEvents
pub mod Running
pub mod Finishing
pub mod Processing
pub mod Stalling
pub mod Starting
mod Tests
mod ExchangeTests

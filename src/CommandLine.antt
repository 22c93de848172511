-- ===== src/CommandLine.antt =====
-- The command line client: client/client_main.cpp.
pub mod Defs
pub mod Outcomes
pub mod Exits
pub mod Answered
mod Tests

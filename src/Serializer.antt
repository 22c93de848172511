-- ===== src/Serializer.antt =====
-- Encoding and decoding of frames: src/serializer.cpp and include/cache/serializer.h.
pub mod Integers
pub mod Frames
pub mod Header
pub mod Decoding
pub mod Requests
pub mod Reading
pub mod Incremental
pub mod Responses
pub mod StatsPayload
mod Tests

-- ===== src/Stream.antt =====
-- Status streams: their lifecycle state, the local stream's connection attempts, and the decoding
-- of updates.
pub mod Types
pub mod Channel
pub mod State
pub mod Updates
pub mod Decode
pub mod Local
mod Tests

-- ===== src/Snapshot.antt =====
-- Package snapshot: the sections of a snapshot and the store that merges updates into it.
pub mod Types
pub mod Payloads
pub mod Store
mod Tests

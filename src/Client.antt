-- ===== src/Client.antt =====
-- The HTTP client core of package busylib: requests, their bodies and headers, retries and versions.
pub mod Path
pub mod Headers
pub mod Bodies
pub mod Prepare
pub mod Execute
pub mod Version
mod Tests

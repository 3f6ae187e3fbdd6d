-- ===== src/Display.antt =====
-- Display updates: the elements of a request and the validation of their fields.
pub mod Names
pub mod Text
pub mod Fields
pub mod Elements
pub mod Checks
pub mod Request
mod Tests

-- ===== src/Usb.antt =====
-- Package usb: the CLI protocol of the device's USB network interface.
pub mod Telnet
pub mod Command
pub mod Prompt
pub mod Streaming
pub mod Session
mod Tests

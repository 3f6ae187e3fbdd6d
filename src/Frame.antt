-- ===== src/Frame.antt =====
-- Package frame: the screen frames that a BUSY Bar emits, their run-length decoding and their
-- rendering. `Types` has the data, `Rle` the decoder, `Pixels` the methods of a frame.
pub mod Types
pub mod Rle
pub mod Build
pub mod Pixels
pub mod Rgba
mod Tests

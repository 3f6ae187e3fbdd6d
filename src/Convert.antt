-- ===== src/Convert.antt =====
-- Package convert and its children: the checks of an image before it is decoded, and the packing of
-- animations.
pub mod Gif
pub mod Animation
mod Tests

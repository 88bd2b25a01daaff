-- ===== src/Convert.antt =====
-- The conversion of raw frames to RGB in src/conversion.rs, and the colour arithmetic of
-- src/utils/color_convert.rs.
pub mod Map
pub mod Row
pub mod Groups
pub mod Colour
pub mod Scale
pub mod Reads
pub mod Packed422
pub mod Safe
pub mod Packed
pub mod Paths
mod Tests

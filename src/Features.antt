-- ===== src/Features.antt =====
-- The features of a device: features, with the feature calls of backend/hidpp20/features below them.
pub mod RemapButton
pub mod SmartShift
pub mod ThumbWheel
pub mod HiresScroll
pub mod Dpi
pub mod Battery

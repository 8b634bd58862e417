-- ===== src/Hidpp.antt =====
-- What HID++ 1.0 and 2.0 share: src/logid/backend/hidpp.
pub mod Defs
pub mod Report
pub mod Descriptor
pub mod Device

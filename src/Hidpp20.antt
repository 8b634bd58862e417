-- ===== src/Hidpp20.antt =====
-- HID++ 2.0: src/logid/backend/hidpp20.
pub mod Device
pub mod ReprogControls

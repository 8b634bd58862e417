-- ===== src/Hidpp10.antt =====
-- HID++ 1.0: src/logid/backend/hidpp10.
pub mod Defs
pub mod Device
pub mod Receiver
pub mod ReceiverMonitor

-- ===== src/Manager.antt =====
-- The managers of devices and receivers: src/logid/DeviceManager.cpp, src/logid/Receiver.cpp and
-- src/logid/Device.cpp.
pub mod Nicknames
pub mod Maps
pub mod Lookups
pub mod Devices
pub mod Hub
pub mod Runs

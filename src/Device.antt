-- ===== src/Device.antt =====
-- src/logid/Device.cpp: a device of the daemon, its profiles, and what it does when it sleeps and wakes.
pub mod Config
pub mod Profiles
pub mod Awake

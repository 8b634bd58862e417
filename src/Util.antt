-- ===== src/Util.antt =====
-- src/logid/util: the queue of commands and the queue of tasks; src/logid/backend/EventHandlerList.h.
pub mod CommandQueue
pub mod Tasks
pub mod Handlers

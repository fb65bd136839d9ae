-- ===== src/Execution.antt =====
-- ayatori/src/execution: a running session, the tasks it makes and the updates it takes.
pub mod Storage
pub mod Update
pub mod Compute
pub mod Preprocess
pub mod Send
pub mod Task
pub mod Evidence
pub mod Session

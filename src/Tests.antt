-- ===== src/Tests.antt =====
-- Runs of the models on concrete inputs.
pub mod Queues
pub mod Slots
pub mod Diagnosis
pub mod Requests
pub mod Framing
pub mod Publishing
pub mod Parameters
pub mod Recording
pub mod Answers
pub mod Roles
pub mod Startup
pub mod Writing
pub mod Topics

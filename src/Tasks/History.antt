-- ===== src/Tasks/History.antt =====
-- Executions that have ended, under the operations of `TaskService`.
pub mod Writes
pub mod Rules
pub mod Rounds
pub mod Operations
pub mod Creation
pub mod Runs

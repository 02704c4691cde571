-- ===== src/Tasks/Repository.antt =====
-- backend/app/repositories/task_repository.py, one module for each repository. A flush of an
-- instance is a save of its row; a create that breaks a unique key of backend/app/models/task.py
-- raises.
pub mod Rows
pub mod Tasks
pub mod Targets
pub mod Executions
pub mod Logs

-- ===== src/Tasks.antt =====
-- Automation tasks: backend/app/services/task_service.py over its repositories and models.
pub mod Model
pub mod Retry
pub mod Session
pub mod Aggregate
pub mod Repository
pub mod Service
pub mod History
pub mod Requests
pub mod Cancellation
pub mod Counts
pub mod HandOut
pub mod Idempotency
mod Tests
pub mod Outcome

-- ===== src/Tasks/Service.antt =====
-- backend/app/services/task_service.py: `TaskService`, split by what starts an operation. Every
-- method ends by a commit on each path that changes a row, so what it returns is committed.
pub mod Status
pub mod Creation
pub mod Dispatch
pub mod Scans

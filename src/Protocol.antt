-- ===== src/Protocol.antt =====
-- What agents report to the server: backend/app/services/agent_service.py, the repositories it
-- writes with, and the handlers of backend/app/api/v1/agent.py.
pub mod Model
pub mod Requests
pub mod Session
pub mod Statuses
pub mod Assets
pub mod Service
pub mod Registration
pub mod Handlers
pub mod Disks
pub mod Networks
pub mod Services
pub mod Reports
pub mod Metrics
pub mod Liveness
pub mod Examples
mod Tests

-- ===== src/Alerts.antt =====
-- Alerting: backend/app/services/alert_engine.py and alert_service.py over their repositories.
pub mod Model
pub mod Session
pub mod Value
pub mod Engine
pub mod Service
pub mod Steps
pub mod Requests
pub mod Recovery
pub mod Counts
mod Tests

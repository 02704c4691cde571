-- ===== src/Agents.antt =====
-- Authentication of agents: backend/app/api/v1/deps.py, core/signing.py and core/replay.py.
pub mod Model
pub mod Platform
pub mod Session
pub mod Signing
pub mod Resolve
pub mod Examples
mod Tests

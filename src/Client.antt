-- ===== src/Client.antt =====
-- The Python agent: agent/signer.py, agent/reporter, agent/errors.py, agent/executor and
-- agent/worker.py.
pub mod Platform
pub mod Signer
pub mod Errors
pub mod Reporter
pub mod Executor
pub mod Worker
mod Tests

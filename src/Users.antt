-- ===== src/Users.antt =====
-- Users and their login: backend/app/services/user_service.py, services/auth_service.py,
-- core/security.py, repositories/user_repository.py and the dependencies for users of
-- api/v1/deps.py.
pub mod Model
pub mod Session
pub mod Repository
pub mod Service
pub mod Login
pub mod Roles
pub mod Names
pub mod Access
pub mod Guard
pub mod Lookups
pub mod Creation
mod Tests

-- ===== src/Authorization.antt =====
-- The decision of backend/internal/domain/authorization/authorization.go.
pub mod Service
pub mod Actions
pub mod Granted
mod Examples

-- ===== src/Artifacts.antt =====
-- Uploads of artifacts: backend/internal/domain/artifacts/service.go.
pub mod Model
pub mod Service
pub mod ObjectKeys
pub mod Laws
pub mod Contracts
mod Examples

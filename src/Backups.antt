-- ===== src/Backups.antt =====
-- Backups of Home Assistant: backend/internal/domain/backups/service.go.
pub mod Model
pub mod Service
pub mod Lifecycle
pub mod Laws
pub mod Results
pub mod Outcomes
pub mod Contracts
pub mod Calls
pub mod Commanded
mod Memory
mod Examples

-- ===== src/Edgestate.antt =====
-- The desired states of devices: backend/internal/domain/edgestate/service.go.
pub mod Service
pub mod Stored
mod Examples

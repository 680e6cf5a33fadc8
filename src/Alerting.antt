-- ===== src/Alerting.antt =====
-- Alerts: backend/internal/domain/alerting.
pub mod Model
pub mod Updates
pub mod Service
pub mod Lifecycle
pub mod Laws
pub mod Refinement
pub mod Invariants
pub mod Calls
pub mod Intake
mod Memory
mod Examples

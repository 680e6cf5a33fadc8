-- ===== src/Commands.antt =====
-- Commands to devices: backend/internal/domain/commands.
pub mod Model
pub mod Updates
pub mod Service
pub mod Lifecycle
pub mod Laws
pub mod Refinement
pub mod Invariants
pub mod Calls
pub mod Creation
pub mod Deadlines
mod Memory
mod Examples

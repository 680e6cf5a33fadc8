-- ===== src/Controlplane.antt =====
-- The control plane: backend/internal/controlplane/idempotency.go.
pub mod Idempotency
pub mod RateLimiter
pub mod Replays
pub mod Limits
mod Examples

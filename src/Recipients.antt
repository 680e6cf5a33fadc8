-- ===== src/Recipients.antt =====
-- Alert recipients: backend/internal/domain/alerting/recipients.go.
pub mod Model
pub mod Subscriptions
pub mod Service
pub mod Selection
pub mod Laws
pub mod Contracts
mod Memory
mod Examples

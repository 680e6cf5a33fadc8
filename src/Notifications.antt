-- ===== src/Notifications.antt =====
-- The e-mails of backend/internal/domain/notifications/service.go.
pub mod Model
pub mod Service
pub mod Processed
pub mod Enqueued
mod Examples

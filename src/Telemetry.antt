-- ===== src/Telemetry.antt =====
-- The runtime messages of telemetry-ingest/internal/pipeline.
pub mod Model
pub mod Envelope
pub mod HealthSnapshot
pub mod AgentAlarm
pub mod StrictJson
pub mod Catalog
pub mod Pipeline
pub mod Ingest
pub mod Laws
pub mod Message
pub mod Contract
pub mod Unrepeated
pub mod Named
pub mod Genuine
pub mod Writes
pub mod Memory
pub mod DistinctKeys
pub mod Documents
mod Examples

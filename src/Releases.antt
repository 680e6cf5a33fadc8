-- ===== src/Releases.antt =====
-- Releases: the versions in backend/internal/domain/releases/service.go, and the advisories on Home
-- Assistant itself in ha_versions.go.
pub mod Versions
pub mod Order
pub mod HaVersions
pub mod Clocks
pub mod Advisories
pub mod Catalog
mod Examples

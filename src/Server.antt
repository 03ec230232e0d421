-- ===== src/Server.antt =====
-- The Express server of artifacts/api-server.
pub mod Schema
pub mod Database
pub mod Trust
pub mod Contract
pub mod ParcelRoutes
pub mod EvidenceRoutes
pub mod Dashboard
pub mod App
pub mod ReadOnly
pub mod Consistency
pub mod Rejections
pub mod Lookups
pub mod Start
pub mod Patches
pub mod Totals
pub mod Invariant

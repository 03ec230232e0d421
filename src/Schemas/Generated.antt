-- ===== src/Schemas/Generated.antt =====
-- lib/api-zod/src/generated/api.ts, by the part of the API.
pub mod Auth
pub mod Tenants
pub mod Delegations
pub mod Parcels
pub mod Geometry
pub mod Evidence

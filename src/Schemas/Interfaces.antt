-- ===== src/Schemas/Interfaces.antt =====
-- lib/api-client-react/src/generated/api.schemas.ts, by what the types are about.
pub mod Identity
pub mod Registry
pub mod Evidence

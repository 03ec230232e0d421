-- ===== src/Schemas.antt =====
-- lib/api-zod and lib/api-client-react/src/generated/api.schemas.ts: the schemas that check the
-- bodies and answers of the API, and the types that the client gives to them.
pub mod Values
pub mod Zod
pub mod Types
pub mod Infer
pub mod Generated
pub mod Interfaces
pub mod Agreement
pub mod Contracts

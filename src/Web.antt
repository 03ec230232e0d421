-- ===== src/Web.antt =====
-- artifacts/landvault-web/src: what the pages of the web application decide.
pub mod Boundary
pub mod Start
pub mod Verify
pub mod Auth
pub mod App
pub mod Detail
pub mod NewParcel
pub mod Registry
pub mod SignIn

-- ===== src/Mockup.antt =====
-- artifacts/mockup-sandbox: the preview server for mockups. Plugin models mockupPreviewPlugin.ts,
-- which keeps the module of all mockups up to date; Preview models src/App.tsx, which shows one.
pub mod Texts
pub mod Plugin
pub mod Refresh
pub mod Preview

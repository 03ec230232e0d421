-- ===== src/Tests.antt =====
-- Runs at concrete data, and the theorems applied to them.
pub mod Samples
pub mod History
pub mod ApiRuns
mod WebRuns
mod ServerRuns
mod LookupRuns
mod ScoreRuns
mod ToastRuns
mod ClientRuns
mod MockupRuns
mod ReplyRuns
mod SampleZod
mod SchemaRuns
mod PageRuns
mod FormRuns

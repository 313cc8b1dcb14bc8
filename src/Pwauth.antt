-- ===== src/Pwauth.antt =====
-- crates/capsudod-pwauth: the front-end that asks for a password before it passes a client on.
pub mod Shadow
pub mod Gate
pub mod Admission
pub mod Options
pub mod CommandLine
pub mod Front
pub mod Pipeline
mod Runs
mod PipelineRuns

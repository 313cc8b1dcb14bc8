-- ===== src/Capsudod.antt =====
-- crates/capsudod: the daemon's command line and the policy that it gives.
pub mod Options
pub mod CommandLine
pub mod Serve
pub mod Gated
mod Runs
mod ServeRuns

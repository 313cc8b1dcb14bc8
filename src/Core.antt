-- ===== src/Core.antt =====
-- crates/capsudo-core: a session, as the client and the daemon drive it over any transport.
pub mod Defs
pub mod Channel
pub mod Daemon
pub mod Client
pub mod Command
pub mod Attenuation
pub mod Handshake
pub mod Delivery
pub mod Outcome
pub mod System
pub mod Pty
pub mod Session
pub mod Actions
pub mod Reports
pub mod Served
pub mod HangUp
pub mod Relay
pub mod Resize
pub mod Resized
mod Runs
mod SessionRuns
mod ResizeRuns

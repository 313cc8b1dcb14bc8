-- ===== src/Capsudo.antt =====
-- crates/capsudo: the client's program, which connects, and connects again with a secret.
pub mod Retry
pub mod Options
pub mod CommandLine
pub mod Environment
pub mod Terminal
pub mod Program
pub mod Restored
pub mod RawPrompt
pub mod Reconnect
mod Runs
mod ReconnectRuns
mod OptionRuns
mod TerminalRuns

-- ===== src/Mux.antt =====
-- crates/capsudo-transport/src/mux.rs: descriptor passing simulated over one byte channel.
pub mod Defs
pub mod Fds
pub mod Ids
pub mod Frames
pub mod Wire
pub mod Channel
pub mod Stream
pub mod Flow
pub mod FlowLaws
pub mod Credit
pub mod Writer
pub mod Reader
pub mod Slots
pub mod Live
pub mod Passing
pub mod Delegation
pub mod Sent
pub mod Reads
pub mod Delivery
pub mod Session
pub mod Barrier
pub mod Outgoing
pub mod Started
pub mod Open
pub mod Sockets
pub mod Pumps
pub mod Pumped
mod Runs
mod FlowRuns
mod TaskRuns
mod SessionRuns
mod PumpRuns
mod SendRuns

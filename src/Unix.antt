-- ===== src/Unix.antt =====
-- crates/capsudo-transport/src/unix.rs: the local transport, whose descriptors travel in ancillary
-- data. Its system calls are events: what each call returned, in order. A call with no event has not
-- returned, and neither has its caller.
pub mod Recv
pub mod Received
pub mod Send
pub mod Stream
pub mod Queued
pub mod Ordered
pub mod Session
pub mod Memory
pub mod Listen
pub mod Connect
mod Runs
mod SessionRuns

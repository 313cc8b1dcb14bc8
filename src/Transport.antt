-- ===== src/Transport.antt =====
-- crates/capsudo-transport/src/traits.rs and error.rs: what every transport has in common.
-- An open descriptor is a number. The byte channel below a transport is an interface, since the
-- runtime that reads and writes it is no part of the repository.
pub mod Defs
pub mod FdSpec
pub mod Bytes
pub mod Memory
pub mod Writes
pub mod Whole
pub mod Radix
pub mod OwnerSpec
mod Runs
mod WriteRuns

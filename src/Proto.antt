-- ===== src/Proto.antt =====
-- crates/capsudo-proto/src/lib.rs: the wire protocol, its messages and their byte framing.
-- A `Vec<u8>`, a `&[u8]` and a string are lists of numbers; a `&'static str` is a native string.
-- Lengths are those of a 64-bit host, where `u32` to `usize` loses nothing.
pub mod Defs
pub mod Tags
pub mod Header
pub mod Message
pub mod Accessors
mod Runs

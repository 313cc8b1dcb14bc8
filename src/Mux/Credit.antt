-- ===== src/Mux/Credit.antt =====
-- Flow control of one stream between two ends that have exchanged `Hello`: the sending pump, the
-- frames on the channel, the receiving end's queue and pump, and the grants on their way back.
-- Any of them may move next. The stream has not been closed by its sender.
pub mod Account
pub mod Defs
pub mod Invariant
pub mod Safety
mod Runs

-- ===== src/Sniff.antt =====
-- src/transport/sniff_io.rs: the channel between the background reader and its two consumers, and the
-- transport that is read through it.
pub mod Channel
pub mod Merge
pub mod Bounds
pub mod Trace
pub mod Order
pub mod Wakes
pub mod Parts
pub mod Io
pub mod Silence
pub mod Stream
pub mod Intact
mod Runs

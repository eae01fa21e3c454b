-- ===== src/Codec.antt =====
-- crates/tpx-codec: the compressors of a chunk's payload.
pub mod Examples
pub mod Chimp128
pub mod Wrappers
pub mod AutoSelect
pub mod Dispatch

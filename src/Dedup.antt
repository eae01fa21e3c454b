-- ===== src/Dedup.antt =====
-- crates/tpx-dedup: content-defined chunking and the store of chunks by content hash.
pub mod Examples
pub mod Cdc
pub mod ContentStore

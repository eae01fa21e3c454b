-- ===== src/Filter.antt =====
-- crates/tpx-filter: the reversible filters that run before compression.
pub mod Examples
pub mod DeltaZigzag
pub mod ByteShuffle
pub mod BitShuffle
pub mod Dispatch

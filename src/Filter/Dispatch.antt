-- ===== src/Filter/Dispatch.antt =====
-- crates/tpx-filter/src/lib.rs: the filter of an identifier.
pub mod Reversible
use orthos_i_dart_tpx.Base.{ℕ, List}
use orthos_i_dart_tpx.Core.DType.{DTypeId, element_size}
use orthos_i_dart_tpx.Core.FilterId.{FilterId, no_filter, byte_shuffle, bit_shuffle, delta_zigzag}
use orthos_i_dart_tpx.Filter.DeltaZigzag as DeltaZigzag
use orthos_i_dart_tpx.Filter.ByteShuffle.{shuffle, unshuffle}
use orthos_i_dart_tpx.Filter.BitShuffle as BitShuffle

-- `get_filter(id).apply(block, dtype)` and `get_filter(id).revert(block, dtype)`.
unfoldable pub apply : FilterId → List ℕ → DTypeId → List ℕ
apply no_filter block dtype = block
apply byte_shuffle block dtype = shuffle block (element_size dtype)
apply bit_shuffle block dtype = BitShuffle.bit_shuffle block
apply delta_zigzag block dtype = DeltaZigzag.encode block dtype

unfoldable pub revert : FilterId → List ℕ → DTypeId → List ℕ
revert no_filter block dtype = block
revert byte_shuffle block dtype = unshuffle block (element_size dtype)
revert bit_shuffle block dtype = BitShuffle.bit_unshuffle block
revert delta_zigzag block dtype = DeltaZigzag.decode block dtype

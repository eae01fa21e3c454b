-- ===== src/Filter/Dispatch/Reversible.antt =====
-- Filters undo themselves.
use orthos_i_dart_tpx.Base.{ℕ, ◌≡◌, ◌≢◌, refl, List, All, IsByte}
use orthos_i_dart_tpx.Core.DType.{DTypeId, element_size}
use orthos_i_dart_tpx.Core.FilterId.{FilterId, no_filter, byte_shuffle, bit_shuffle, delta_zigzag}
use orthos_i_dart_tpx.Filter.ByteShuffle.{shuffle, unshuffle}
use orthos_i_dart_tpx.Filter.ByteShuffle.RoundTrip.{unshuffle-shuffle_scalar}
use orthos_i_dart_tpx.Filter.DeltaZigzag.RoundTrip.{decode-encode}
use orthos_i_dart_tpx.Filter.Dispatch.{apply, revert}

-- For every filter but the bit shuffle and every element type, reverting what a filter made of a
-- block of bytes gives the block back.
pub revert-apply :
    (id : FilterId) (block : List ℕ) (dtype : DTypeId)
    → id ≢ bit_shuffle
    → All IsByte block
    → revert id (apply id block dtype) dtype ≡ block
unfolding apply revert shuffle unshuffle
revert-apply no_filter block dtype n v = refl
revert-apply byte_shuffle block dtype n v = unshuffle-shuffle_scalar block (element_size dtype)
revert-apply bit_shuffle block dtype n v = absurd (n refl)
revert-apply delta_zigzag block dtype n v = decode-encode block dtype v

-- ===== src/Filter/Examples.antt =====
-- The theorems on the filters at concrete inputs.
use orthos_i_dart_tpx.Base.{ℕ, ◌-◌, ◌*◌, ◌^◌, ◌≤◌, ◌<◌, ◌≡◌, ◌≢◌, arith, List, [], ◌∷◌}
use orthos_i_dart_tpx.Core.FilterId.{byte_shuffle, bit_shuffle}
use orthos_i_dart_tpx.Filter.Dispatch.{apply, revert}
use orthos_i_dart_tpx.Filter.Dispatch.Reversible.{revert-apply}
use orthos_i_dart_tpx.Filter.ByteShuffle.{shuffle_scalar, unshuffle_scalar}
use orthos_i_dart_tpx.Filter.ByteShuffle.RoundTrip.{unshuffle-shuffle_scalar}
use orthos_i_dart_tpx.Core.DType.{int16}
use orthos_i_dart_tpx.Filter.DeltaZigzag.{zigzag, encode, decode}
use orthos_i_dart_tpx.Filter.DeltaZigzag.Zigzag.{zigzag_sign}
use orthos_i_dart_tpx.Filter.DeltaZigzag.RoundTrip.{decode-encode}

-- Two 16-bit elements and a tail of a byte.
abbrev block : List ℕ
block = 5 ∷ 1 ∷ 2 ∷ 0 ∷ 9 ∷ []

decode-encode_example : decode (encode block int16) int16 ≡ block
decode-encode_example = decode-encode block int16 (omega arith)

zigzag_sign_example :
    (253 < 2 ^ 7 → zigzag (2 ^ 8) 253 ≡ 2 * 253)
    × (2 ^ 7 ≤ 253 → zigzag (2 ^ 8) 253 ≡ 2 * (2 ^ 8 - 253) - 1)
zigzag_sign_example = zigzag_sign 7 253 (omega arith)

unshuffle-shuffle_scalar_example : unshuffle_scalar (shuffle_scalar block 2) 2 ≡ block
unshuffle-shuffle_scalar_example = unshuffle-shuffle_scalar block 2

shuffles_differ : byte_shuffle ≢ bit_shuffle
shuffles_differ h = cc

revert-apply_example : revert byte_shuffle (apply byte_shuffle block int16) int16 ≡ block
revert-apply_example = revert-apply byte_shuffle block int16 shuffles_differ (omega arith)

-- ===== src/Core/CodecId.antt =====
-- `CodecId` of crates/tpx-core/src/types.rs: its numbers in the file format and the way back.
use orthos_i_dart_tpx.Base.{ℕ, ◌≡◌, ◌↔◌, refl, arith, ◌==◌, ◌<◌, if◌then◌else◌}
use orthos_i_dart_tpx.Core.Error.{Result, ok, err, invalid_codec}

pub data CodecId : Type 0 where
  raw chimp128 zstd lz4 : CodecId

-- `as u8`.
unfoldable pub to_u8 : CodecId → ℕ
to_u8 raw = 0
to_u8 chimp128 = 1
to_u8 zstd = 2
to_u8 lz4 = 3

unfoldable pub from_u8 : ℕ → Result CodecId
from_u8 val =
    if val == 0
    then ok raw
    else if val == 1
    then ok chimp128
    else if val == 2
    then ok zstd
    else if val == 3
    then ok lz4
    else err (invalid_codec val)

-- `from_u8` accepts a number exactly if it is the number of the identifier that it returns.
pub from_u8_iff : (val : ℕ) (d : CodecId) → (from_u8 val ≡ ok d) ↔ (to_u8 d ≡ val)
unfolding from_u8 to_u8
from_u8_iff val raw = ground arith
from_u8_iff val chimp128 = ground arith
from_u8_iff val zstd = ground arith
from_u8_iff val lz4 = ground arith

pub from_u8-to_u8 : (d : CodecId) → from_u8 (to_u8 d) ≡ ok d
from_u8-to_u8 d = (from_u8_iff (to_u8 d) d).1 refl

pub to_u8-lt : (d : CodecId) → to_u8 d < 256
unfolding to_u8
to_u8-lt raw = omega arith
to_u8-lt chimp128 = omega arith
to_u8-lt zstd = omega arith
to_u8-lt lz4 = omega arith

-- ===== src/Core/FilterId.antt =====
-- `FilterId` of crates/tpx-core/src/types.rs: its numbers in the file format and the way back.
use orthos_i_dart_tpx.Base.{ℕ, ◌≡◌, ◌↔◌, refl, arith, ◌==◌, ◌<◌, if◌then◌else◌}
use orthos_i_dart_tpx.Core.Error.{Result, ok, err, invalid_filter}

pub data FilterId : Type 0 where
  no_filter byte_shuffle bit_shuffle delta_zigzag : FilterId

-- `as u8`.
unfoldable pub to_u8 : FilterId → ℕ
to_u8 no_filter = 0
to_u8 byte_shuffle = 1
to_u8 bit_shuffle = 2
to_u8 delta_zigzag = 3

unfoldable pub from_u8 : ℕ → Result FilterId
from_u8 val =
    if val == 0
    then ok no_filter
    else if val == 1
    then ok byte_shuffle
    else if val == 2
    then ok bit_shuffle
    else if val == 3
    then ok delta_zigzag
    else err (invalid_filter val)

-- `from_u8` accepts a number exactly if it is the number of the identifier that it returns.
pub from_u8_iff : (val : ℕ) (d : FilterId) → (from_u8 val ≡ ok d) ↔ (to_u8 d ≡ val)
unfolding from_u8 to_u8
from_u8_iff val no_filter = ground arith
from_u8_iff val byte_shuffle = ground arith
from_u8_iff val bit_shuffle = ground arith
from_u8_iff val delta_zigzag = ground arith

pub from_u8-to_u8 : (d : FilterId) → from_u8 (to_u8 d) ≡ ok d
from_u8-to_u8 d = (from_u8_iff (to_u8 d) d).1 refl

pub to_u8-lt : (d : FilterId) → to_u8 d < 256
unfolding to_u8
to_u8-lt no_filter = omega arith
to_u8-lt byte_shuffle = omega arith
to_u8-lt bit_shuffle = omega arith
to_u8-lt delta_zigzag = omega arith

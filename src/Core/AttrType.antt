-- ===== src/Core/AttrType.antt =====
-- `AttrTypeId` of crates/tpx-core/src/types.rs: its numbers in the file format and the way back.
use orthos_i_dart_tpx.Base.{ℕ, ◌≡◌, ◌↔◌, refl, arith, ◌==◌, ◌<◌, if◌then◌else◌}
use orthos_i_dart_tpx.Core.Error.{Result, ok, err, invalid_attr_type}

pub data AttrTypeId : Type 0 where
  string int64 float64 bool bytes : AttrTypeId

-- `as u8`.
unfoldable pub to_u8 : AttrTypeId → ℕ
to_u8 string = 0
to_u8 int64 = 1
to_u8 float64 = 2
to_u8 bool = 3
to_u8 bytes = 4

unfoldable pub from_u8 : ℕ → Result AttrTypeId
from_u8 val =
    if val == 0
    then ok string
    else if val == 1
    then ok int64
    else if val == 2
    then ok float64
    else if val == 3
    then ok bool
    else if val == 4
    then ok bytes
    else err (invalid_attr_type val)

-- `from_u8` accepts a number exactly if it is the number of the identifier that it returns.
pub from_u8_iff : (val : ℕ) (d : AttrTypeId) → (from_u8 val ≡ ok d) ↔ (to_u8 d ≡ val)
unfolding from_u8 to_u8
from_u8_iff val string = ground arith
from_u8_iff val int64 = ground arith
from_u8_iff val float64 = ground arith
from_u8_iff val bool = ground arith
from_u8_iff val bytes = ground arith

pub from_u8-to_u8 : (d : AttrTypeId) → from_u8 (to_u8 d) ≡ ok d
from_u8-to_u8 d = (from_u8_iff (to_u8 d) d).1 refl

pub to_u8-lt : (d : AttrTypeId) → to_u8 d < 256
unfolding to_u8
to_u8-lt string = omega arith
to_u8-lt int64 = omega arith
to_u8-lt float64 = omega arith
to_u8-lt bool = omega arith
to_u8-lt bytes = omega arith

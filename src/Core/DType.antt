-- ===== src/Core/DType.antt =====
-- `DTypeId` of crates/tpx-core/src/types.rs: its numbers in the file format and the way back.
use orthos_i_dart_tpx.Base.{ℕ, Bool, ◌≡◌, ◌↔◌, refl, arith, ◌==◌, ◌<◌, if◌then◌else◌}
use orthos_i_dart_tpx.Core.Error.{Result, ok, err, invalid_dtype}

pub data DTypeId : Type 0 where
  float64 float32 float16 bfloat16 int64 int32 : DTypeId
  int16 int8 uint64 uint32 uint16 uint8 : DTypeId
  bool : DTypeId

-- `as u8`.
unfoldable pub to_u8 : DTypeId → ℕ
to_u8 float64 = 0
to_u8 float32 = 1
to_u8 float16 = 2
to_u8 bfloat16 = 3
to_u8 int64 = 4
to_u8 int32 = 5
to_u8 int16 = 6
to_u8 int8 = 7
to_u8 uint64 = 8
to_u8 uint32 = 9
to_u8 uint16 = 10
to_u8 uint8 = 11
to_u8 bool = 12

unfoldable pub from_u8 : ℕ → Result DTypeId
from_u8 val =
    if val == 0
    then ok float64
    else if val == 1
    then ok float32
    else if val == 2
    then ok float16
    else if val == 3
    then ok bfloat16
    else if val == 4
    then ok int64
    else if val == 5
    then ok int32
    else if val == 6
    then ok int16
    else if val == 7
    then ok int8
    else if val == 8
    then ok uint64
    else if val == 9
    then ok uint32
    else if val == 10
    then ok uint16
    else if val == 11
    then ok uint8
    else if val == 12
    then ok bool
    else err (invalid_dtype val)

-- `from_u8` accepts a number exactly if it is the number of the identifier that it returns.
pub dtype_from_u8_iff : (val : ℕ) (d : DTypeId) → (from_u8 val ≡ ok d) ↔ (to_u8 d ≡ val)
unfolding from_u8 to_u8
dtype_from_u8_iff val float64 = ground arith
dtype_from_u8_iff val float32 = ground arith
dtype_from_u8_iff val float16 = ground arith
dtype_from_u8_iff val bfloat16 = ground arith
dtype_from_u8_iff val int64 = ground arith
dtype_from_u8_iff val int32 = ground arith
dtype_from_u8_iff val int16 = ground arith
dtype_from_u8_iff val int8 = ground arith
dtype_from_u8_iff val uint64 = ground arith
dtype_from_u8_iff val uint32 = ground arith
dtype_from_u8_iff val uint16 = ground arith
dtype_from_u8_iff val uint8 = ground arith
dtype_from_u8_iff val bool = ground arith

pub from_u8-to_u8 : (d : DTypeId) → from_u8 (to_u8 d) ≡ ok d
from_u8-to_u8 d = (dtype_from_u8_iff (to_u8 d) d).1 refl

pub to_u8-lt : (d : DTypeId) → to_u8 d < 256
unfolding to_u8
to_u8-lt float64 = omega arith
to_u8-lt float32 = omega arith
to_u8-lt float16 = omega arith
to_u8-lt bfloat16 = omega arith
to_u8-lt int64 = omega arith
to_u8-lt int32 = omega arith
to_u8-lt int16 = omega arith
to_u8-lt int8 = omega arith
to_u8-lt uint64 = omega arith
to_u8-lt uint32 = omega arith
to_u8-lt uint16 = omega arith
to_u8-lt uint8 = omega arith
to_u8-lt bool = omega arith

unfoldable pub element_size : DTypeId → ℕ
element_size float64 = 8
element_size float32 = 4
element_size float16 = 2
element_size bfloat16 = 2
element_size int64 = 8
element_size int32 = 4
element_size int16 = 2
element_size int8 = 1
element_size uint64 = 8
element_size uint32 = 4
element_size uint16 = 2
element_size uint8 = 1
element_size bool = 1

-- `==` of the derived `PartialEq`.
unfoldable pub dtype_eq : DTypeId → DTypeId → Bool
unfolding to_u8
dtype_eq a b = to_u8 a == to_u8 b

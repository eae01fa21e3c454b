-- ===== src/Filter/DeltaZigzag.antt =====
-- crates/tpx-filter/src/delta_zigzag.rs. The source repeats one loop for 8, 4, 2 and 1 bytes;
-- here the width in bytes is a parameter. A signed integer is its bit pattern.
pub mod Zigzag
pub mod RoundTrip
use orthos_i_dart_tpx.Base.{
  ℕ, zero, suc, ◌+◌, ◌-◌, ◌*◌, ◌/◌, ◌%◌, ◌^◌, List, [], ◌∷◌, ◌++◌, bit_xor, ltb, ◌==◌,
  if◌then◌else◌, length, take, drop,
}
use orthos_i_dart_tpx.Core.Cursor.{write_le}
use orthos_i_dart_tpx.Core.DType.{
  DTypeId, float64, float32, float16, bfloat16, int64, int32, int16, int8, uint64, uint32, uint16,
  uint8, bool,
}

-- `from_le_bytes`.
unfoldable pub from_le : List ℕ → ℕ
from_le [] = 0
from_le (b ∷ bs) = b + 256 * from_le bs

-- `(delta as uN).wrapping_shl(1) ^ ((delta >> (N - 1)) as uN)`: the arithmetic shift fills with
-- the sign bit.
unfoldable pub zigzag : ℕ → ℕ → ℕ
zigzag modulus delta =
    bit_xor (delta * 2 % modulus) (if ltb delta (modulus / 2) then 0 else modulus - 1)

-- `((zigzag >> 1) as iN) ^ (-((zigzag & 1) as iN))`.
unfoldable pub unzigzag : ℕ → ℕ → ℕ
unzigzag modulus z = bit_xor (z / 2) (if z % 2 == 0 then 0 else modulus - 1)

-- The loop over `count` elements; the bytes behind the last element are copied.
unfoldable pub encode_loop : ℕ → ℕ → ℕ → List ℕ → List ℕ
encode_loop w zero prev bytes = bytes
encode_loop w (suc count) prev bytes =
    let val = from_le (take w bytes) in
    let delta = (val + 256 ^ w - prev) % 256 ^ w in
    write_le w (zigzag (256 ^ w) delta) ++ encode_loop w count val (drop w bytes)

unfoldable pub decode_loop : ℕ → ℕ → ℕ → List ℕ → List ℕ
decode_loop w zero prev bytes = bytes
decode_loop w (suc count) prev bytes =
    let val = (prev + unzigzag (256 ^ w) (from_le (take w bytes))) % 256 ^ w in
    write_le w val ++ decode_loop w count val (drop w bytes)

-- With no whole element the data is returned as it is.
unfoldable pub encode_width : ℕ → List ℕ → List ℕ
encode_width w bytes =
    let count = length bytes / w in if count == 0 then bytes else encode_loop w count 0 bytes

unfoldable pub decode_width : ℕ → List ℕ → List ℕ
decode_width w bytes =
    let count = length bytes / w in if count == 0 then bytes else decode_loop w count 0 bytes

unfoldable pub encode : List ℕ → DTypeId → List ℕ
encode bytes int64 = encode_width 8 bytes
encode bytes uint64 = encode_width 8 bytes
encode bytes int32 = encode_width 4 bytes
encode bytes uint32 = encode_width 4 bytes
encode bytes int16 = encode_width 2 bytes
encode bytes uint16 = encode_width 2 bytes
encode bytes int8 = encode_width 1 bytes
encode bytes uint8 = encode_width 1 bytes
encode bytes bool = encode_width 1 bytes
encode bytes float64 = bytes
encode bytes float32 = bytes
encode bytes float16 = bytes
encode bytes bfloat16 = bytes

unfoldable pub decode : List ℕ → DTypeId → List ℕ
decode bytes int64 = decode_width 8 bytes
decode bytes uint64 = decode_width 8 bytes
decode bytes int32 = decode_width 4 bytes
decode bytes uint32 = decode_width 4 bytes
decode bytes int16 = decode_width 2 bytes
decode bytes uint16 = decode_width 2 bytes
decode bytes int8 = decode_width 1 bytes
decode bytes uint8 = decode_width 1 bytes
decode bytes bool = decode_width 1 bytes
decode bytes float64 = bytes
decode bytes float32 = bytes
decode bytes float16 = bytes
decode bytes bfloat16 = bytes

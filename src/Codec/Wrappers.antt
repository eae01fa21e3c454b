-- ===== src/Codec/Wrappers.antt =====
-- crates/tpx-codec/src/lib.rs: the codecs Raw and Chimp128 at the level of bytes.
pub mod RoundTrip
use orthos_i_dart_tpx.Base.{
  ℕ, zero, suc, ◌+◌, ◌*◌, ◌/◌, List, [], ◌++◌, length, ◌==◌, if◌then◌else◌, take, drop, Option,
  none, some,
}
use orthos_i_dart_tpx.Core.Error.{Result, ok, err, decompress_length_mismatch, ◌>>=◌}
use orthos_i_dart_tpx.Core.Cursor.{write_le}
use orthos_i_dart_tpx.Core.DType.{DTypeId, float64, dtype_eq}
use orthos_i_dart_tpx.Filter.DeltaZigzag.{from_le}
use orthos_i_dart_tpx.Codec.Chimp128.{Encoder, new_encoder, encode_f64, encode_f32, finish}
use orthos_i_dart_tpx.Codec.Chimp128.Decoder.{Decoder, new_decoder, decode_f64, decode_f32}

unfoldable pub compress_raw : List ℕ → Result (List ℕ)
compress_raw bytes = ok bytes

unfoldable pub sized : ℕ → List ℕ → Result (List ℕ)
sized uncompressed_len out =
    if length out == uncompressed_len
    then ok out
    else err (decompress_length_mismatch uncompressed_len (length out))

unfoldable pub decompress_raw : List ℕ → ℕ → Result (List ℕ)
unfolding sized
decompress_raw bytes uncompressed_len = sized uncompressed_len bytes

-- The loop of `compress` over `count` elements of `width` bytes.
unfoldable pub encode_elements : (ℕ → Encoder → Encoder) → ℕ → ℕ → List ℕ → Encoder → Encoder
encode_elements put width zero bytes encoder = encoder
encode_elements put width (suc count) bytes encoder =
    encode_elements put width count (drop width bytes) (put (from_le (take width bytes)) encoder)

unfoldable pub compress_chimp128 : List ℕ → DTypeId → Result (List ℕ)
compress_chimp128 bytes dtype = ok (
    finish (
      if dtype_eq dtype float64
      then encode_elements encode_f64 8 (length bytes / 8) bytes new_encoder
      else encode_elements encode_f32 4 (length bytes / 4) bytes new_encoder))

-- The `while let` loop of `decompress`; `fuel` bounds its rounds.
unfoldable pub decode_elements : (Decoder → Option (ℕ × Decoder)) → ℕ → ℕ → Decoder → List ℕ
decode_elements next width zero decoder = []
decode_elements next width (suc fuel) decoder = elim (next decoder) [
  | none ↦ []
  | some (val, decoder') ↦ write_le width val ++ decode_elements next width fuel decoder'
]

-- A decoder stops after `total_count` values, so that many rounds are enough.
unfoldable pub decompress_chimp128 : List ℕ → ℕ → DTypeId → Result (List ℕ)
unfolding sized
decompress_chimp128 bytes uncompressed_len dtype = new_decoder bytes >>= λ decoder.
    sized uncompressed_len (
      if dtype_eq dtype float64
      then decode_elements decode_f64 8 decoder.total_count decoder
      else decode_elements decode_f32 4 decoder.total_count decoder)

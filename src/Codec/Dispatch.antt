-- ===== src/Codec/Dispatch.antt =====
-- crates/tpx-codec: `get_codec` of src/lib.rs, with the wrappers of zstd (src/zstd_codec.rs) and LZ4
-- (src/lz4_codec.rs). The two compressors themselves are third parties' and parameters; the text of
-- their errors is not modelled.
use orthos_i_dart_tpx.Base.{ℕ, ◌≡◌, ◌≤◌, List, length, min, max, Option, none, some}
use orthos_i_dart_tpx.Core.Error.{Result, ok, err, codec_error, ◌>>=◌}
use orthos_i_dart_tpx.Core.CodecId.{CodecId, raw, chimp128, zstd, lz4}
use orthos_i_dart_tpx.Core.DType.{DTypeId}
use orthos_i_dart_tpx.Codec.Wrappers.{
  compress_raw, decompress_raw, compress_chimp128, decompress_chimp128, sized,
}

-- `zstd::bulk` and `lz4_flex`. `none` is an error.
pub record Compressors : Type 0 where
  pub zstd_compress : ℕ → List ℕ → Option (List ℕ)
  pub zstd_decompress : ℕ → List ℕ → Option (List ℕ)
  pub lz4_compress : List ℕ → List ℕ
  pub lz4_decompress : List ℕ → Option (List ℕ)

-- What their documentation promises: at a level from 1 to 22 zstd compresses any block, and
-- a buffer of the block's length is enough to get it back; LZ4 gives every block back.
pub record IsLossless (c : Compressors) : Type 0 where
  pub zstd_back :
      (level : ℕ) (block : List ℕ)
      → 1 ≤ level
      → level ≤ 22
      → (packed : List ℕ) × (c.zstd_compress level block ≡ some packed)
        × (c.zstd_decompress (length block) packed ≡ some block)
  pub lz4_back : (block : List ℕ) → c.lz4_decompress (c.lz4_compress block) ≡ some block

unfoldable pub checked : Option (List ℕ) → Result (List ℕ)
checked none = err (codec_error "")
checked (some out) = ok out

module _ (c : Compressors) where
  -- `get_codec(id).compress(data, level, dtype)`.
  unfoldable pub compress : CodecId → List ℕ → ℕ → DTypeId → Result (List ℕ)
  compress raw bytes level dtype = compress_raw bytes
  compress chimp128 bytes level dtype = compress_chimp128 bytes dtype
  compress zstd bytes level dtype = checked (c.zstd_compress (min (max level 1) 22) bytes)
  compress lz4 bytes level dtype = ok (c.lz4_compress bytes)

  -- `get_codec(id).decompress(data, uncompressed_len, dtype)`.
  unfoldable pub decompress : CodecId → List ℕ → ℕ → DTypeId → Result (List ℕ)
  decompress raw bytes uncompressed_len dtype = decompress_raw bytes uncompressed_len
  decompress chimp128 bytes uncompressed_len dtype =
      decompress_chimp128 bytes uncompressed_len dtype
  decompress zstd bytes uncompressed_len dtype = checked (c.zstd_decompress uncompressed_len bytes)
  decompress lz4 bytes uncompressed_len dtype =
      checked (c.lz4_decompress bytes) >>= sized uncompressed_len

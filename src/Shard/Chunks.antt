-- ===== src/Shard/Chunks.antt =====
-- How the engine makes the chunk of a segment and reads one back: the steps of
-- `put_with_retention` and `read_tensor_from_entry` of crates/tpx-shard/src/engine.rs on one chunk.
pub mod RoundTrip
use orthos_i_dart_tpx.Base.{
  ℕ, ◌+◌, ◌*◌, ◌%◌, ◌^◌, List, [], ◌∷◌, ◌++◌, length, take, drop, true, ltb, ◌==◌, if◌then◌else◌,
}
use orthos_i_dart_tpx.Core.Error.{Result, ok, err, buffer_too_small, chunk_crc_mismatch, ◌>>=◌}
use orthos_i_dart_tpx.Core.DType.{DTypeId}
use orthos_i_dart_tpx.Core.Chunk as Chunk
use orthos_i_dart_tpx.Core.Chunk.{BlockEntry, ChunkHeader, pad_to_align}
use orthos_i_dart_tpx.Filter.Dispatch.{apply, revert}
use orthos_i_dart_tpx.Codec.AutoSelect.{CodecSelection, auto_select}
use orthos_i_dart_tpx.Codec.Dispatch.{compress, decompress}
use orthos_i_dart_tpx.Shard.{Platform}

-- The sum of the blocks' compressed lengths, in `usize`.
unfoldable pub payload_len : List BlockEntry → ℕ
payload_len [] = 0
payload_len (b ∷ table) = (b.compressed_len + payload_len table) % 2 ^ 64

module _ {Art : Type 0} (platform : Platform Art) where
  -- The header, the table of one block, the payload, and zeros up to the alignment.
  unfoldable pub chunk_bytes : CodecSelection → ℕ → ℕ → List ℕ → List ℕ
  chunk_bytes selection seg_len chunk_align compressed =
      let header : ChunkHeader = record {
        codec_id = selection.codec;
        filter_id = selection.filter;
        block_count = 1;
        block_size = seg_len % 2 ^ 32;
        uncompressed_len = seg_len % 2 ^ 32;
        payload_crc32c = platform.crc32 compressed;
      } in
      let block_table : List BlockEntry =
        record { compressed_len = length compressed % 2 ^ 32 } ∷ [] in
      pad_to_align (Chunk.serialize header block_table ++ compressed) chunk_align

  -- A segment is filtered and compressed as `auto_select` says for a target of 250 MB/s.
  unfoldable pub make_chunk : List ℕ → DTypeId → ℕ → Result (List ℕ)
  unfolding chunk_bytes
  make_chunk raw_segment dtype chunk_align =
      let selection = auto_select platform.high_entropy raw_segment dtype true in
      let filtered = apply selection.filter raw_segment dtype in
      compress platform.compressors selection.codec filtered selection.level dtype >>= λ compressed.
      ok (chunk_bytes selection (length raw_segment) chunk_align compressed)

  -- The part of `read_tensor_from_entry` behind the read of a chunk at `offset`.
  unfoldable pub open_chunk : ℕ → DTypeId → List ℕ → Result (List ℕ)
  unfolding payload_len
  open_chunk offset dtype bytes = Chunk.deserialize bytes >>= λ chunk.
      let hdr = chunk.0 in
      let payload_start = 16 + length chunk.1 * 4 in
      let compressed_len = payload_len chunk.1 in
      if ltb (length bytes) (payload_start + compressed_len)
      then err (buffer_too_small "ChunkPayload" (payload_start + compressed_len) (length bytes))
      else (let payload = take compressed_len (drop payload_start bytes) in
          if platform.crc32 payload == hdr.payload_crc32c
          then (decompress platform.compressors hdr.codec_id payload hdr.uncompressed_len dtype
              >>= λ decompressed. ok (revert hdr.filter_id decompressed dtype))
          else err (chunk_crc_mismatch offset hdr.payload_crc32c (platform.crc32 payload)))

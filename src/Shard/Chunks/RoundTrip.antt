-- ===== src/Shard/Chunks/RoundTrip.antt =====
-- A chunk gives its segment back.
use orthos_i_dart_tpx.Base.{
  ℕ, ◌+◌, ◌*◌, ◌%◌, ◌^◌, ◌≤◌, ◌<◌, ◌≡◌, refl, arith, List, [], ◌∷◌, ◌++◌, length, length-append,
  take-append_len, drop-append_len, append_assoc, replicate, length-replicate, true, false, ltb,
  ◌==◌, if◌then◌else◌, Bool-cases, inl, inr, IsU32,
}
use orthos_i_dart_tpx.Core.Error.{ok, ◌>>=◌}
use orthos_i_dart_tpx.Core.DType.{DTypeId}
use orthos_i_dart_tpx.Core.Chunk as Chunk
use orthos_i_dart_tpx.Core.Chunk.{BlockEntry, ChunkHeader, IsChunk, pad_to_align}
use orthos_i_dart_tpx.Core.Chunk.Laws.{
  chunk_deserialize-serialize, length-serialize, pad_to_align_lem,
}
use orthos_i_dart_tpx.Core.FilterId.{no_filter}
use orthos_i_dart_tpx.Filter.Dispatch.{apply, revert}
use orthos_i_dart_tpx.Codec.AutoSelect.{CodecSelection, auto_select, plain, quick}
use orthos_i_dart_tpx.Codec.Wrappers.{compress_raw, decompress_raw, sized}
use orthos_i_dart_tpx.Codec.Dispatch.{compress, decompress, IsLossless, checked}
use orthos_i_dart_tpx.Shard.{Platform}
use orthos_i_dart_tpx.Shard.Chunks.{chunk_bytes, make_chunk, open_chunk, payload_len}

-- What the code relies on of the third parties: the compressors give their input back, LZ4 output is
-- not much longer than its input, and the checksums and hashes fit their types.
pub record IsPlatform {Art : Type 0} (platform : Platform Art) : Type 0 where
  pub lossless : IsLossless platform.compressors
  pub lz4_bound :
      (block : List ℕ) → length (platform.compressors.lz4_compress block) ≤ 2 * length block + 64
  pub crc_fits : (bytes : List ℕ) → IsU32 (platform.crc32 bytes)
  pub hash_fits : (bytes : List ℕ) (seed : ℕ) → platform.xxh64 bytes seed < 2 ^ 64

length-padded :
    (h : ChunkHeader) (t : List BlockEntry) (payload : List ℕ) (chunk_align : ℕ)
    → length (pad_to_align (Chunk.serialize h t ++ payload) chunk_align)
      ≤ 16 + length t * 4 + length payload + chunk_align
length-padded h t payload chunk_align =
    let (k, padded, few, whole) = pad_to_align_lem (Chunk.serialize h t ++ payload) chunk_align in
    rw padded (
      omega (
        arith,
        few,
        length-append (Chunk.serialize h t ++ payload) (replicate k 0),
        length-append (Chunk.serialize h t) payload,
        length-serialize h t,
        length-replicate {A = ℕ} k 0,
      ))

module _ {Art : Type 0} (platform : Platform Art) where
  -- The chunk of a segment: no filter, and LZ4 unless the segment is empty.
  abbrev pub chunk_of : List ℕ → ℕ → List ℕ
  chunk_of block chunk_align =
      if length block == 0
      then chunk_bytes platform plain (length block) chunk_align block
      else chunk_bytes platform quick (length block) chunk_align
          (platform.compressors.lz4_compress block)

  pub make_chunk_lem :
      (block : List ℕ) (dtype : DTypeId) (chunk_align : ℕ)
      → make_chunk platform block dtype chunk_align ≡ ok (chunk_of block chunk_align)
  unfolding make_chunk auto_select compress compress_raw apply
  make_chunk_lem block dtype chunk_align = elim (Bool-cases (length block == 0)) [
    | inl empty ↦ rw (make_chunk, empty) refl
    | inr full ↦ rw (make_chunk, full) refl
  ]

  length-chunk_bytes :
      (selection : CodecSelection) (n chunk_align : ℕ) (compressed : List ℕ)
      → length (chunk_bytes platform selection n chunk_align compressed)
        ≤ 20 + length compressed + chunk_align
  unfolding chunk_bytes
  length-chunk_bytes selection n chunk_align compressed = length-padded _ _ compressed chunk_align

  pub length-chunk_of :
      (block : List ℕ) (chunk_align : ℕ)
      → IsPlatform platform
      → length (chunk_of block chunk_align) ≤ 84 + 2 * length block + chunk_align
  length-chunk_of block chunk_align v = elim (Bool-cases (length block == 0)) [
    | inl empty ↦
        rw empty (omega (arith, length-chunk_bytes plain (length block) chunk_align block))
    | inr full ↦ rw full (
        omega (
          arith,
          v.lz4_bound block,
          length-chunk_bytes quick (length block) chunk_align
              (platform.compressors.lz4_compress block),
        ))
  ]

  -- What `open_chunk` makes of bytes with a known header, table and payload.
  open_layout :
      (h : ChunkHeader) (front payload tail block : List ℕ) (dtype : DTypeId) (offset : ℕ)
      → length front ≡ 20
      → length payload < 2 ^ 32
      → Chunk.deserialize (front ++ (payload ++ tail))
        ≡ ok (h, record { compressed_len = length payload } ∷ [])
      → platform.crc32 payload ≡ h.payload_crc32c
      → h.filter_id ≡ no_filter
      → decompress platform.compressors h.codec_id payload h.uncompressed_len dtype ≡ ok block
      → open_chunk platform offset dtype (front ++ (payload ++ tail)) ≡ ok block
  unfolding payload_len revert open_chunk
  open_layout h front payload tail block dtype offset size short known crc unfiltered back =
      let one : (length payload + 0) % 2 ^ 64 ≡ length payload = ground arith in
      let whole : length (front ++ (payload ++ tail)) ≡ 20 + (length payload + length tail) =
        omega (arith, length-append front (payload ++ tail), length-append payload tail) in
      let inside : ltb (20 + (length payload + length tail)) (20 + length payload) ≡ false =
        ground arith in
      let same : (h.payload_crc32c == h.payload_crc32c) ≡ true = ground arith in
      rw
        (
          open_chunk,
          known,
          one,
          whole,
          inside,
          drop-append_len 20 front (payload ++ tail) size,
          take-append_len (length payload) payload tail refl,
          crc,
          same,
          back,
          unfiltered,
        )
        refl

  open_chunk-chunk_bytes :
      (selection : CodecSelection) (block compressed : List ℕ) (dtype : DTypeId)
      (chunk_align offset : ℕ)
      → IsPlatform platform
      → length block < 2 ^ 32
      → length compressed < 2 ^ 32
      → selection.filter ≡ no_filter
      → decompress platform.compressors selection.codec compressed (length block) dtype ≡ ok block
      → open_chunk platform offset dtype
          (chunk_bytes platform selection (length block) chunk_align compressed)
        ≡ ok block
  unfolding chunk_bytes
  open_chunk-chunk_bytes selection block compressed dtype chunk_align offset v small short
        unfiltered back =
      let len : length block % 2 ^ 32 ≡ length block = ground arith in
      let packed : length compressed % 2 ^ 32 ≡ length compressed = ground arith in
      let h : ChunkHeader = record {
        codec_id = selection.codec;
        filter_id = selection.filter;
        block_count = 1;
        block_size = length block;
        uncompressed_len = length block;
        payload_crc32c = platform.crc32 compressed;
      } in
      let t : List BlockEntry = record { compressed_len = length compressed } ∷ [] in
      let fits : IsChunk h t = record {
        counted = refl;
        count_fits = omega arith;
        size_fits = small;
        len_fits = small;
        crc_fits = v.crc_fits compressed;
        entries_fit = (short, tt);
      } in
      let (k, padded, few, whole) =
        pad_to_align_lem (Chunk.serialize h t ++ compressed) chunk_align in
      rw (len, packed, padded, append_assoc (Chunk.serialize h t) compressed (replicate k 0))
        (open_layout h (Chunk.serialize h t) compressed (replicate k 0) block dtype offset
          (length-serialize h t) short
          (chunk_deserialize-serialize h t (compressed ++ replicate k 0) fits) refl unfiltered back)

  lz4_then :
      (block : List ℕ)
      → IsPlatform platform
      → (checked (platform.compressors.lz4_decompress (platform.compressors.lz4_compress block))
          >>= sized (length block))
        ≡ ok block
  unfolding checked sized
  lz4_then block v =
      let same : (length block == length block) ≡ true = ground arith in
      rw (v.lossless.lz4_back block, same) refl

  -- The chunk that `put_with_retention` makes of a segment of fewer than 2 ^ 30 bytes gives the
  -- segment back when `read_tensor_from_entry` opens it, at any offset and for any element type, also
  -- one other than that of the segment: making the chunk succeeds, and so does opening it.
  pub open_chunk-make_chunk :
      (block : List ℕ) (dtype dtype' : DTypeId) (chunk_align offset : ℕ)
      → IsPlatform platform
      → length block < 2 ^ 30
      → (make_chunk platform block dtype chunk_align >>= open_chunk platform offset dtype')
        ≡ ok block
  unfolding decompress decompress_raw sized
  open_chunk-make_chunk block dtype dtype' chunk_align offset v small =
      rw (make_chunk_lem block dtype chunk_align) (elim (Bool-cases (length block == 0)) [
        | inl empty ↦
            let same : (length block == length block) ≡ true = ground arith in
            rw empty (
              open_chunk-chunk_bytes plain block block dtype' chunk_align offset v (omega arith)
                (omega arith) refl (rw same refl))
        | inr full ↦ rw full (
            open_chunk-chunk_bytes quick block _ dtype' chunk_align offset v (omega arith)
              (omega (arith, v.lz4_bound block)) refl (lz4_then block v))
      ])

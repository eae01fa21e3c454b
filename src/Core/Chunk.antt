-- ===== src/Core/Chunk.antt =====
-- crates/tpx-core/src/chunk.rs: the 16-byte chunk header with its block table, and the padding
-- of a chunk to the alignment.
pub mod Laws
use orthos_i_dart_tpx.Base.{
  ℕ, zero, suc, ◌+◌, ◌-◌, ◌*◌, ◌%◌, ◌<◌, ◌≡◌, ◌++◌, List, [], ◌∷◌, length, ltb, ◌==◌, if◌then◌else◌,
  replicate, All, IsU16, IsU32,
}
use orthos_i_dart_tpx.Core.Error.{Result, ok, err, buffer_too_small}
use orthos_i_dart_tpx.Core.Error as Error
use orthos_i_dart_tpx.Core.Cursor.{Cursor, ◌>>=◌, pure, lift, write_le, read_le}
use orthos_i_dart_tpx.Core.CodecId
use orthos_i_dart_tpx.Core.CodecId.{CodecId}
use orthos_i_dart_tpx.Core.FilterId
use orthos_i_dart_tpx.Core.FilterId.{FilterId}
use orthos_i_dart_tpx.Core.Types.{chunk_header_size, block_entry_size}

-- A `BlockEntry` is its `compressed_len`.
pub record BlockEntry : Type 0 where
  pub compressed_len : ℕ

pub record ChunkHeader : Type 0 where
  pub codec_id : CodecId
  pub filter_id : FilterId
  pub block_count : ℕ
  pub block_size : ℕ
  pub uncompressed_len : ℕ
  pub payload_crc32c : ℕ

unfoldable pub write_table : List BlockEntry → List ℕ
write_table [] = []
write_table (entry ∷ rest) = write_le 4 entry.compressed_len ++ write_table rest

unfoldable pub serialize : ChunkHeader → List BlockEntry → List ℕ
serialize h block_table =
    write_le 1 (CodecId.to_u8 h.codec_id)
    ++ (write_le 1 (FilterId.to_u8 h.filter_id)
        ++ (write_le 2 h.block_count
            ++ (write_le 4 h.block_size
                ++ (write_le 4 h.uncompressed_len
                    ++ (write_le 4 h.payload_crc32c ++ write_table block_table)))))

unfoldable pub read_header : Cursor ChunkHeader
read_header = do
  codec_id_u8 ← read_le 1
  codec_id ← lift (CodecId.from_u8 codec_id_u8)
  filter_id_u8 ← read_le 1
  filter_id ← lift (FilterId.from_u8 filter_id_u8)
  block_count ← read_le 2
  block_size ← read_le 4
  uncompressed_len ← read_le 4
  payload_crc32c ← read_le 4
  pure (record {
    codec_id = codec_id;
    filter_id = filter_id;
    block_count = block_count;
    block_size = block_size;
    uncompressed_len = uncompressed_len;
    payload_crc32c = payload_crc32c;
  })

unfoldable pub read_table : ℕ → Cursor (List BlockEntry)
read_table zero = pure []
read_table (suc n) = do
  compressed_len ← read_le 4
  rest ← read_table n
  pure (record { compressed_len = compressed_len } ∷ rest)

unfoldable pub deserialize : List ℕ → Result (ChunkHeader × List BlockEntry)
deserialize buf =
    if ltb (length buf) chunk_header_size
    then err (buffer_too_small "ChunkHeader" chunk_header_size (length buf))
    else Error.◌>>=◌ (read_header buf) λ r.
      let required_total = chunk_header_size + r.0.block_count * block_entry_size in
      if ltb (length buf) required_total
      then err (buffer_too_small "BlockTable" required_total (length buf))
      else Error.◌>>=◌ (read_table r.0.block_count r.1) λ t. ok (r.0, t.0)

unfoldable pub pad_to_align : List ℕ → ℕ → List ℕ
pad_to_align buf chunk_align =
    if chunk_align == 0
    then buf
    else (let remainder = length buf % chunk_align in
        if remainder == 0 then buf else buf ++ replicate (chunk_align - remainder) 0)

-- The fields fit their Rust types, and the table has as many entries as the header counts.
pub record IsChunk (h : ChunkHeader) (table : List BlockEntry) : Type 0 where
  pub counted : length table ≡ h.block_count
  pub count_fits : IsU16 h.block_count
  pub size_fits : IsU32 h.block_size
  pub len_fits : IsU32 h.uncompressed_len
  pub crc_fits : IsU32 h.payload_crc32c
  pub entries_fit : All (λ (e : BlockEntry). IsU32 e.compressed_len) table

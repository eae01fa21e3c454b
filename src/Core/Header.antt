-- ===== src/Core/Header.antt =====
-- crates/tpx-core/src/header.rs: the 48-byte file header. The code writes into a buffer of
-- exactly 48 bytes; the model appends.
pub mod Laws
use orthos_i_dart_tpx.Base.{
  ℕ, ◌/◌, ◌%◌, ◌^◌, ◌<◌, ◌≡◌, ◌++◌, max, List, length, ltb, if◌then◌else◌, bytes_eq, IsU16, IsU32,
  IsU64, IsByte, All,
}
use orthos_i_dart_tpx.Core.Error.{
  Result, ok, err, invalid_magic, unsupported_version, buffer_too_small,
}
use orthos_i_dart_tpx.Core.Error as Error
use orthos_i_dart_tpx.Core.Cursor.{Cursor, ◌>>=◌, pure, write_le, read_le, read_exact}
use orthos_i_dart_tpx.Core.Types.{magic_bytes, header_size, default_block_size}

pub record FileHeader : Type 0 where
  pub magic : List ℕ
  pub format_version : ℕ
  pub flags : ℕ
  pub chunk_align : ℕ
  pub default_block_size : ℕ
  pub shard_count : ℕ
  pub reserved : ℕ
  pub global_attrs_offset : ℕ
  pub global_attrs_len : ℕ
  pub shard_table_offset : ℕ
  pub reserved2 : ℕ

-- `FileHeader::new`.
unfoldable pub new : ℕ → ℕ → ℕ → FileHeader
new shard_count chunk_align flags = record {
  magic = magic_bytes;
  format_version = 0x0100;
  flags = flags;
  chunk_align = chunk_align;
  default_block_size = default_block_size;
  shard_count = max shard_count 1;
  reserved = 0;
  global_attrs_offset = 0;
  global_attrs_len = 0;
  shard_table_offset = 0;
  reserved2 = 0;
}

unfoldable pub serialize : FileHeader → List ℕ
serialize h =
    h.magic
    ++ (write_le 2 h.format_version
        ++ (write_le 2 h.flags
            ++ (write_le 4 h.chunk_align
                ++ (write_le 4 h.default_block_size
                    ++ (write_le 2 h.shard_count
                        ++ (write_le 2 h.reserved
                            ++ (write_le 8 h.global_attrs_offset
                                ++ (write_le 8 h.global_attrs_len
                                    ++ (write_le 8 h.shard_table_offset
                                        ++ write_le 4 h.reserved2)))))))))

unfoldable pub validate : FileHeader → Result (Unit {0})
validate h =
    if bytes_eq h.magic magic_bytes
    then (if ltb 1 (h.format_version / 2 ^ 8 % 256)
        then err (unsupported_version h.format_version)
        else ok tt)
    else err (invalid_magic magic_bytes h.magic)

-- The reads of `deserialize`, in order.
unfoldable pub read_fields : Cursor FileHeader
read_fields = do
  magic ← read_exact 4
  format_version ← read_le 2
  flags ← read_le 2
  chunk_align ← read_le 4
  default_block_size ← read_le 4
  shard_count ← read_le 2
  reserved ← read_le 2
  global_attrs_offset ← read_le 8
  global_attrs_len ← read_le 8
  shard_table_offset ← read_le 8
  reserved2 ← read_le 4
  pure (record {
    magic = magic;
    format_version = format_version;
    flags = flags;
    chunk_align = chunk_align;
    default_block_size = default_block_size;
    shard_count = shard_count;
    reserved = reserved;
    global_attrs_offset = global_attrs_offset;
    global_attrs_len = global_attrs_len;
    shard_table_offset = shard_table_offset;
    reserved2 = reserved2;
  })

unfoldable pub deserialize : List ℕ → Result FileHeader
deserialize buf =
    if ltb (length buf) header_size
    then err (buffer_too_small "FileHeader" header_size (length buf))
    else Error.◌>>=◌ (read_fields buf) λ r. Error.◌>>=◌ (validate r.0) λ _. ok r.0

-- The fields fit their Rust types.
pub record IsHeader (h : FileHeader) : Type 0 where
  pub magic_len : length h.magic ≡ 4
  pub magic_bytes : All IsByte h.magic
  pub version_fits : IsU16 h.format_version
  pub flags_fit : IsU16 h.flags
  pub align_fits : IsU32 h.chunk_align
  pub block_fits : IsU32 h.default_block_size
  pub count_fits : IsU16 h.shard_count
  pub reserved_fits : IsU16 h.reserved
  pub offset_fits : IsU64 h.global_attrs_offset
  pub len_fits : IsU64 h.global_attrs_len
  pub table_fits : IsU64 h.shard_table_offset
  pub reserved2_fits : IsU32 h.reserved2

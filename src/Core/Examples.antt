-- ===== src/Core/Examples.antt =====
-- The theorems on identifiers, attributes, headers, footers and chunks at concrete inputs.
use orthos_i_dart_tpx.Base.{
  if◌then◌else◌, true, ℕ, ◌+◌, ◌<◌, ◌≡◌, ◌↔◌, ◌≤◌, ◌%◌, ◌^◌, ◌/◌, ◌≢◌, ◌++◌, List, [], ◌∷◌, length,
  refl, arith, replicate, take, All, IsByte, none, some, inr,
}
use orthos_i_dart_tpx.Core.Error.{
  attr_value_too_large, ok, err, buffer_too_small, invalid_magic, unsupported_version,
}
use orthos_i_dart_tpx.Core.Types.{magic_bytes, magic_end_checkpoint}
use orthos_i_dart_tpx.Core.Attrs as Attrs
use orthos_i_dart_tpx.Core.Attrs.Lookup.{get_attr-set_attr}
use orthos_i_dart_tpx.Core.Attrs.Binary as Binary
use orthos_i_dart_tpx.Core.Attrs.Order.{IsDistinct}
use orthos_i_dart_tpx.Core.Attrs.RoundTrip.{IsEntry, deserialize_attrs-serialize}
use orthos_i_dart_tpx.Core.Utf8.{is_utf8}
use orthos_i_dart_tpx.Core.Header as Header
use orthos_i_dart_tpx.Core.Header.{FileHeader, IsHeader}
use orthos_i_dart_tpx.Base.{bytes_eq}
use orthos_i_dart_tpx.Core.Cursor.{write_le, read_le, read_exact}
use orthos_i_dart_tpx.Core.Header.Laws.{
  IsSupported, deserialize-IsHeader, header_deserialize_errors,
}
use orthos_i_dart_tpx.Core.Footer as Footer
use orthos_i_dart_tpx.Core.Footer.{
  Footer, IsFooter, scan_for_footer, serialize, deserialize, accept,
}
use orthos_i_dart_tpx.Core.Footer.Laws.{footer_deserialize_iff}
use orthos_i_dart_tpx.Core.Footer.Scan.{footer_at, find_footer, candidates, scan_for_footer_lem}
use orthos_i_dart_tpx.Core.Footer.Recovery.{scan_recovers}
use orthos_i_dart_tpx.Core.Chunk as Chunk
use orthos_i_dart_tpx.Core.Chunk.{BlockEntry, ChunkHeader, IsChunk, pad_to_align}
use orthos_i_dart_tpx.Core.Chunk.Laws.{
  chunk_deserialize-serialize, chunk_deserialize_cut, pad_to_align_lem,
}
use orthos_i_dart_tpx.Core.DType
use orthos_i_dart_tpx.Core.CodecId.{lz4}
use orthos_i_dart_tpx.Core.FilterId.{delta_zigzag}
use native.Mathlib.Decide.{ℕ_discrete}

-- A checkpoint footer of a table at byte 48, at the end of a first block of 512 bytes, and one
-- byte of a torn write behind it.
abbrev sample_footer : Footer
sample_footer = record {
  toc_offset = 48;
  total_chunks = 3;
  checksum = 77;
  magic_end = magic_end_checkpoint;
}

sample_footer-IsFooter : IsFooter sample_footer
sample_footer-IsFooter = record {
  offset_fits = omega arith;
  chunks_fit = omega arith;
  checksum_fits = omega arith;
  magic_known = inr refl;
}

abbrev front : List ℕ
front = replicate 488 0

past_end : (bytes : List ℕ) (o : ℕ) → length bytes < o + 24 → footer_at bytes o ≡ none
unfolding footer_at
past_end bytes o h = ground arith

abbrev torn : List ℕ
torn = front ++ (serialize sample_footer ++ (9 ∷ []))

length-torn : length torn ≡ 513
unfolding serialize write_le
length-torn = refl

torn_at_489 : footer_at torn 489 ≡ none
unfolding footer_at accept deserialize serialize write_le read_le Footer.read_fields read_exact
    bytes_eq
torn_at_489 = refl

torn_IsClean : (o : ℕ) → 488 < o → footer_at torn o ≡ none
torn_IsClean o h = elim (ℕ_discrete o 489) [
  | yes e ↦ rw e torn_at_489
  | no n ↦ past_end torn o (omega (arith, length-torn))
]

scan_recovers_example : scan_for_footer torn (length torn) 512 ≡ ok (some (sample_footer, 488))
scan_recovers_example =
    scan_recovers front sample_footer (9 ∷ []) 512 1 sample_footer-IsFooter (omega arith)
      (omega arith) torn_IsClean

abbrev sample_header : FileHeader
sample_header = record {
  magic = magic_bytes;
  format_version = 256;
  flags = 0;
  chunk_align = 4096;
  default_block_size = 65536;
  shard_count = 2;
  reserved = 0;
  global_attrs_offset = 4096;
  global_attrs_len = 17;
  shard_table_offset = 8192;
  reserved2 = 0;
}

with_version-IsHeader :
    (version : ℕ) → version < 2 ^ 16 → IsHeader (record sample_header { format_version = version })
with_version-IsHeader version h = record {
  magic_len = refl;
  magic_bytes = omega arith;
  version_fits = h;
  flags_fit = omega arith;
  align_fits = omega arith;
  block_fits = omega arith;
  count_fits = omega arith;
  reserved_fits = omega arith;
  offset_fits = omega arith;
  len_fits = omega arith;
  table_fits = omega arith;
  reserved2_fits = omega arith;
}

abbrev header_buf : List ℕ
header_buf = Header.serialize sample_header ++ (7 ∷ [])

header_buf-IsByte : All IsByte header_buf
unfolding Header.serialize write_le
header_buf-IsByte = omega arith

deserialize-IsHeader_example : (Header.deserialize header_buf ≡ ok sample_header) ↔ (
    IsHeader sample_header
    × IsSupported sample_header
    × ((rest : List ℕ) × (header_buf ≡ Header.serialize sample_header ++ rest)))
deserialize-IsHeader_example = deserialize-IsHeader header_buf sample_header header_buf-IsByte

-- A header of major version 2.
abbrev newer_header : FileHeader
newer_header = record sample_header { format_version = 512 }

header_deserialize_errors_example :
    (newer_header.magic ≢ magic_bytes
      → Header.deserialize (Header.serialize newer_header ++ [])
        ≡ err (invalid_magic magic_bytes newer_header.magic))
    × (newer_header.magic ≡ magic_bytes
        → 1 < newer_header.format_version / 2 ^ 8 % 256
        → Header.deserialize (Header.serialize newer_header ++ []) ≡ err (unsupported_version 512))
    × (Header.deserialize (1 ∷ []) ≡ err (buffer_too_small "FileHeader" 48 1))
header_deserialize_errors_example =
    header_deserialize_errors newer_header [] (1 ∷ []) (with_version-IsHeader 512 (omega arith))
      (omega arith)

abbrev footer_buf : List ℕ
footer_buf = 5 ∷ 6 ∷ serialize sample_footer

footer_buf-IsByte : All IsByte footer_buf
unfolding serialize write_le
footer_buf-IsByte = omega arith

footer_deserialize_iff_example : (deserialize footer_buf ≡ ok sample_footer) ↔ (
    IsFooter sample_footer × ((front : List ℕ) × (footer_buf ≡ front ++ serialize sample_footer)))
footer_deserialize_iff_example = footer_deserialize_iff footer_buf sample_footer footer_buf-IsByte

scan_for_footer_lem_example :
    scan_for_footer (replicate 30 0) 30 0 ≡ ok (find_footer (replicate 30 0) (candidates 30 512))
scan_for_footer_lem_example = scan_for_footer_lem (replicate 30 0) 30 0

abbrev sample_chunk : ChunkHeader
sample_chunk = record {
  codec_id = lz4;
  filter_id = delta_zigzag;
  block_count = 2;
  block_size = 65536;
  uncompressed_len = 100000;
  payload_crc32c = 12345;
}

abbrev sample_table : List BlockEntry
sample_table = record { compressed_len = 30 } ∷ record { compressed_len = 20 } ∷ []

sample_chunk-IsChunk : IsChunk sample_chunk sample_table
sample_chunk-IsChunk = record {
  counted = refl;
  count_fits = omega arith;
  size_fits = omega arith;
  len_fits = omega arith;
  crc_fits = omega arith;
  entries_fit = omega arith;
}

chunk_deserialize-serialize_example :
    Chunk.deserialize (Chunk.serialize sample_chunk sample_table ++ (1 ∷ 2 ∷ []))
    ≡ ok (sample_chunk, sample_table)
chunk_deserialize-serialize_example =
    chunk_deserialize-serialize sample_chunk sample_table (1 ∷ 2 ∷ []) sample_chunk-IsChunk

chunk_deserialize_cut_example :
    (20 < 16
      → Chunk.deserialize (take 20 (Chunk.serialize sample_chunk sample_table))
        ≡ err (buffer_too_small "ChunkHeader" 16 20))
    × (16 ≤ 20
        → Chunk.deserialize (take 20 (Chunk.serialize sample_chunk sample_table))
          ≡ err (buffer_too_small "BlockTable" 24 20))
chunk_deserialize_cut_example =
    chunk_deserialize_cut sample_chunk sample_table 20 sample_chunk-IsChunk (omega arith)

pad_to_align_lem_example :
    (k : ℕ) × (pad_to_align (1 ∷ 2 ∷ 3 ∷ []) 8 ≡ (1 ∷ 2 ∷ 3 ∷ []) ++ replicate k 0)
    × (k ≤ 7)
    × (0 < 8 → length (pad_to_align (1 ∷ 2 ∷ 3 ∷ []) 8) % 8 ≡ 0)
pad_to_align_lem_example = pad_to_align_lem (1 ∷ 2 ∷ 3 ∷ []) 8

dtype_from_u8_iff_example : (DType.from_u8 6 ≡ ok DType.int16) ↔ (DType.to_u8 DType.int16 ≡ 6)
dtype_from_u8_iff_example = DType.dtype_from_u8_iff 6 DType.int16

abbrev sample_attrs : Attrs.Attrs
sample_attrs = (97 ∷ [], Attrs.int64 5) ∷ (98 ∷ [], Attrs.bool true) ∷ []

get_attr-set_attr_example :
    (4096 < Attrs.val_len (Attrs.int64 6)
      → Attrs.set_attr sample_attrs (98 ∷ []) (Attrs.int64 6)
        ≡ (sample_attrs, err (attr_value_too_large (Attrs.val_len (Attrs.int64 6)))))
    × (Attrs.val_len (Attrs.int64 6) ≤ 4096
        → ((Attrs.set_attr sample_attrs (98 ∷ []) (Attrs.int64 6)).1 ≡ ok tt)
          × (Attrs.get_attr (Attrs.set_attr sample_attrs (98 ∷ []) (Attrs.int64 6)).0 (97 ∷ []) ≡ (
              if bytes_eq (98 ∷ []) (97 ∷ [])
              then some (Attrs.int64 6)
              else Attrs.get_attr sample_attrs (97 ∷ []))))
get_attr-set_attr_example = get_attr-set_attr sample_attrs (98 ∷ []) (97 ∷ []) (Attrs.int64 6)

-- Stored in the order of their keys, "a" before "b".
abbrev binary_attrs : Attrs.Attrs
binary_attrs = (98 ∷ [], Attrs.bool true) ∷ (97 ∷ [], Attrs.string (104 ∷ 105 ∷ [])) ∷ []

binary_attrs-All : All IsEntry binary_attrs
unfolding is_utf8 Attrs.val_len
binary_attrs-All = (
  record { key_len = omega arith; key_text = refl; value_len = omega arith; value_fits = tt },
  (
    record { key_len = omega arith; key_text = refl; value_len = omega arith; value_fits = refl },
    tt,
  ),
)

binary_attrs-IsDistinct : IsDistinct binary_attrs
unfolding Attrs.get_attr bytes_eq
binary_attrs-IsDistinct = (refl, (refl, tt))

deserialize_attrs-serialize_example :
    (Binary.deserialize (Binary.serialize binary_attrs) ≡ ok (Binary.sorted binary_attrs))
    × IsDistinct (Binary.sorted binary_attrs)
    × ((key : List ℕ)
        → Attrs.get_attr (Binary.sorted binary_attrs) key ≡ Attrs.get_attr binary_attrs key)
deserialize_attrs-serialize_example =
    deserialize_attrs-serialize binary_attrs binary_attrs-All binary_attrs-IsDistinct

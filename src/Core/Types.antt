-- ===== src/Core/Types.antt =====
-- crates/tpx-core/src/types.rs: constants, enumerations with their numbers, and the plain structs.
use orthos_i_dart_tpx.Base.{ℕ, ◌*◌, ◌%◌, ◌^◌, List, [], ◌∷◌}
use orthos_i_dart_tpx.Core.DType.{DTypeId, element_size}
use mathlib.Core.List.{foldl}

-- `*b"TPX\x01"`, `*b"1XPT"` and `*b"1XPC"`.
abbrev pub magic_bytes : List ℕ
magic_bytes = b'T' ∷ b'P' ∷ b'X' ∷ 1 ∷ []

abbrev pub magic_end_final : List ℕ
magic_end_final = b'1' ∷ b'X' ∷ b'P' ∷ b'T' ∷ []

abbrev pub magic_end_checkpoint : List ℕ
magic_end_checkpoint = b'1' ∷ b'X' ∷ b'P' ∷ b'C' ∷ []

abbrev pub header_size : ℕ
header_size = 48

abbrev pub footer_size : ℕ
footer_size = 24

abbrev pub chunk_header_size : ℕ
chunk_header_size = 16

abbrev pub block_entry_size : ℕ
block_entry_size = 4

abbrev pub default_chunk_align : ℕ
default_chunk_align = 4096

abbrev pub default_block_size : ℕ
default_block_size = 64 * 1024

pub data OpenMode : Type 0 where
  read_only read_write append : OpenMode

pub record ChunkRef : Type 0 where
  pub shard_id : ℕ
  pub chunk_offset : ℕ
  pub chunk_len : ℕ

pub record OwnedTensor : Type 0 where
  pub dtype : DTypeId
  pub shape : List ℕ
  pub bytes : List ℕ

-- `iter().product()` of `usize`, which wraps in a release build.
unfoldable pub product : List ℕ → ℕ
product = foldl (λ acc dim. acc * dim % 2 ^ 64) 1

unfoldable pub total_elements : OwnedTensor → ℕ
total_elements t = elim t.shape [ [] ↦ 0 | d ∷ ds ↦ product (d ∷ ds) ]

unfoldable pub expected_byte_len : OwnedTensor → ℕ
expected_byte_len t = total_elements t * element_size t.dtype % 2 ^ 64

abbrev pub hugepage_chunk_align : ℕ
hugepage_chunk_align = 2 * 1024 * 1024

abbrev pub flag_direct_io : ℕ
flag_direct_io = 0x01

abbrev pub flag_checksummed : ℕ
flag_checksummed = 0x02

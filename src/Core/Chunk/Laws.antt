-- ===== src/Core/Chunk/Laws.antt =====
-- A chunk's header and table are read back with any payload behind them; padding aligns.
use orthos_i_dart_tpx.Base.{
  ℕ, zero, suc, ◌+◌, ◌-◌, ◌*◌, ◌%◌, ◌≤◌, ◌<◌, ◌≡◌, ◌++◌, ◌∙◌, List, [], ◌∷◌, length, refl, arith,
  length-append, length-replicate, append_assoc, append-nil, length-take, sym, ◌/◌, take-append_ge,
  All, IsU32, ap, replicate, take,
}
use orthos_i_dart_tpx.Core.Error.{Result, ok, err, buffer_too_small}
use orthos_i_dart_tpx.Core.Cursor.{Cursor, ◌>>=◌, lift, write_le, length-write_le, read_le_then}
use native.Mathlib.Nat.{div-add-mod, mod-lt, mul-mod_left}
use native.Mathlib.Decide.{ℕ_discrete}
use orthos_i_dart_tpx.Core.CodecId
use orthos_i_dart_tpx.Core.FilterId
use orthos_i_dart_tpx.Core.Chunk.{
  BlockEntry, ChunkHeader, write_table, serialize, read_header, read_table, deserialize,
  pad_to_align, IsChunk,
}

length-write_table : (t : List BlockEntry) → length (write_table t) ≡ length t * 4
unfolding write_table
length-write_table [] = refl
length-write_table (e ∷ t) = omega (
  arith,
  length-append (write_le 4 e.compressed_len) (write_table t),
  length-write_le 4 e.compressed_len,
  length-write_table t,
)

pub length-serialize :
    (h : ChunkHeader) (t : List BlockEntry) → length (serialize h t) ≡ 16 + length t * 4
unfolding serialize
length-serialize h t = simp (length-append, length-write_le, length-write_table) (omega arith)

lift_then :
    {A B : Type 0} (r : Result A) (a : A) (f : A → Cursor B) (bs : List ℕ)
    → r ≡ ok a
    → (lift r >>= f) bs ≡ f a bs
lift_then r a f bs e = rw e refl

-- The header's own 16 bytes are those of an empty table.
serialize_split :
    (h : ChunkHeader) (t : List BlockEntry) → serialize h t ≡ serialize h [] ++ write_table t
unfolding serialize write_table
serialize_split h t = simp (append_assoc, append-nil)

read_header-head :
    (h : ChunkHeader) (t : List BlockEntry) (rest : List ℕ)
    → IsChunk h t
    → read_header (serialize h [] ++ rest) ≡ ok (h, rest)
unfolding read_header serialize write_table
read_header-head h t rest v =
    simp (append_assoc, append-nil)
      (read_le_then _ 1 (CodecId.to_u8 h.codec_id) _ (CodecId.to_u8-lt h.codec_id)
        ∙ lift_then _ h.codec_id _ _ (CodecId.from_u8-to_u8 h.codec_id)
        ∙ read_le_then _ 1 (FilterId.to_u8 h.filter_id) _ (FilterId.to_u8-lt h.filter_id)
        ∙ lift_then _ h.filter_id _ _ (FilterId.from_u8-to_u8 h.filter_id)
        ∙ read_le_then _ 2 h.block_count _ v.count_fits
        ∙ read_le_then _ 4 h.block_size _ v.size_fits
        ∙ read_le_then _ 4 h.uncompressed_len _ v.len_fits
        ∙ read_le_then _ 4 h.payload_crc32c _ v.crc_fits)

read_header-write :
    (h : ChunkHeader) (t : List BlockEntry) (rest : List ℕ)
    → IsChunk h t
    → read_header (serialize h t ++ rest) ≡ ok (h, write_table t ++ rest)
read_header-write h t rest v =
    rw (serialize_split h t, append_assoc) (read_header-head h t (write_table t ++ rest) v)

-- A cut at or behind the header leaves the header and a cut table.
read_header-take :
    (h : ChunkHeader) (t : List BlockEntry) (n : ℕ)
    → IsChunk h t
    → 16 ≤ n
    → read_header (take n (serialize h t)) ≡ ok (h, take (n - 16) (write_table t))
read_header-take h t n v le =
    rw
      (
        serialize_split h t,
        take-append_ge n (serialize h []) (write_table t) (omega (arith, length-serialize h [])),
        length-serialize h [],
      )
      (read_header-head h t _ v)

read_table-write :
    (t : List BlockEntry) (rest : List ℕ)
    → All (λ (e : BlockEntry). IsU32 e.compressed_len) t
    → read_table (length t) (write_table t ++ rest) ≡ ok (t, rest)
unfolding read_table write_table
read_table-write [] rest v = refl
read_table-write (e ∷ t) rest (ve, vt) =
    simp append_assoc
      (read_le_then _ 4 e.compressed_len _ ve ∙ rw (read_table-write t rest vt, ◌>>=◌))

-- `ChunkHeader::deserialize` returns the header and the block table that `serialize` wrote, with
-- any payload behind them, if the table has as many entries as the header counts and every field
-- fits its type.
pub chunk_deserialize-serialize :
    (h : ChunkHeader) (t : List BlockEntry) (payload : List ℕ)
    → IsChunk h t
    → deserialize (serialize h t ++ payload) ≡ ok (h, t)
unfolding deserialize
chunk_deserialize-serialize h t payload v = ground (
  arith,
  length-append (serialize h t) payload,
  length-serialize h t,
  read_header-write h t payload v,
  read_table-write t payload v.entries_fit,
  ap (λ (n : ℕ). read_table n (write_table t ++ payload)) v.counted,
  v.counted,
)

-- A chunk cut off anywhere inside its header or its block table is refused: the first says that
-- the header needs 16 bytes, the second how many bytes the counted table needs.
pub chunk_deserialize_cut :
    (h : ChunkHeader) (t : List BlockEntry) (n : ℕ)
    → IsChunk h t
    → n < 16 + length t * 4
    → (n < 16 → deserialize (take n (serialize h t)) ≡ err (buffer_too_small "ChunkHeader" 16 n))
      × (16 ≤ n
          → deserialize (take n (serialize h t))
            ≡ err (buffer_too_small "BlockTable" (16 + h.block_count * 4) n))
unfolding deserialize
chunk_deserialize_cut h t n v lt =
    let cut : length (take n (serialize h t)) ≡ n =
      omega (arith, length-take n (serialize h t), length-serialize h t) in
    (λ below. ground arith, λ above. ground (arith, read_header-take h t n v above, v.counted))

pad_mod : (n align : ℕ) → 0 < align → (n + (align - n % align)) % align ≡ 0
pad_mod n align h =
    let whole : n + (align - n % align) ≡ suc (n / align) * align =
      omega (arith, div-add-mod n align, mod-lt n {m = align} h) in
    rw whole (mul-mod_left (suc (n / align)) align)

-- Padding keeps the bytes and adds only zeros, fewer than the alignment; the new length is a
-- multiple of the alignment. With alignment 0 nothing is added.
pub pad_to_align_lem :
    (buf : List ℕ) (align : ℕ)
    → (k : ℕ) × (pad_to_align buf align ≡ buf ++ replicate k 0)
      × (k ≤ align - 1)
      × (0 < align → length (pad_to_align buf align) % align ≡ 0)
unfolding pad_to_align
pad_to_align_lem buf zero = (0, sym (append-nil buf), omega arith, λ h. absurd (omega arith))
pad_to_align_lem buf (suc a) = elim (ℕ_discrete (length buf % suc a) 0) [
  | yes aligned ↦ (0, ground (arith, append-nil buf), omega arith, λ h. ground arith)
  | no rest ↦ (
    suc a - length buf % suc a,
    ground arith,
    omega arith,
    λ h. ground (
      arith,
      length-append buf (replicate (suc a - length buf % suc a) 0),
      length-replicate {A = ℕ} (suc a - length buf % suc a) 0,
      pad_mod (length buf) (suc a) h,
    ),
  )
]

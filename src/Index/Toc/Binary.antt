-- ===== src/Index/Toc/Binary.antt =====
-- `Toc::serialize` and `Toc::deserialize` of crates/tpx-index/src/toc.rs.
use orthos_i_dart_tpx.Base.{ℕ, zero, suc, List, [], ◌∷◌, ◌++◌, length}
use orthos_i_dart_tpx.Core.Error.{Result, ok, err}
use orthos_i_dart_tpx.Core.Error as Error
use orthos_i_dart_tpx.Core.Cursor.{Cursor, ◌>>=◌, pure, lift, write_le, read_le, read_exact}
use orthos_i_dart_tpx.Core.Types.{ChunkRef}
use orthos_i_dart_tpx.Core.DType as DType
use orthos_i_dart_tpx.Core.Attrs.{Attrs, set_attr}
use orthos_i_dart_tpx.Core.Attrs.Binary as Binary
use orthos_i_dart_tpx.Index.Toc.{TocEntry, Toc, build}

unfoldable pub write_shape : List ℕ → List ℕ
write_shape [] = []
write_shape (dim ∷ shape) = write_le 4 dim ++ write_shape shape

-- `let _ = attrs_obj.set(..)` for each attribute: one that is too large is left out.
unfoldable pub set_all : Attrs → Attrs → Attrs
set_all obj [] = obj
set_all obj ((k, v) ∷ attrs) = set_all (set_attr obj k v).0 attrs

unfoldable pub write_ref : ChunkRef → List ℕ
write_ref r = write_le 2 r.shard_id ++ (write_le 8 r.chunk_offset ++ write_le 4 r.chunk_len)

unfoldable pub write_refs : List ChunkRef → List ℕ
unfolding write_ref
write_refs [] = []
write_refs (r ∷ refs) = write_ref r ++ write_refs refs

unfoldable pub write_entry : TocEntry → List ℕ
unfolding write_shape set_all write_refs
write_entry e =
    let attrs_bytes = Binary.serialize (set_all [] e.attrs) in
    write_le 8 e.key_hash
    ++ (write_le 2 (length e.key)
        ++ (e.key
            ++ (write_le 1 (DType.to_u8 e.dtype_id)
                ++ (write_le 1 (length e.shape)
                    ++ (write_shape e.shape
                        ++ (write_le 4 (length attrs_bytes)
                            ++ (attrs_bytes
                                ++ (write_le 2 (length e.chunk_refs)
                                    ++ (write_refs e.chunk_refs ++ write_le 1 e.tombstone)))))))))

unfoldable pub write_entries : List TocEntry → List ℕ
unfolding write_entry
write_entries [] = []
write_entries (e ∷ entries) = write_entry e ++ write_entries entries

unfoldable pub serialize : Toc → List ℕ
unfolding write_entries
serialize t = write_le 4 (length t.entries) ++ write_entries t.entries

unfoldable pub read_shape : ℕ → Cursor (List ℕ)
read_shape zero = pure []
read_shape (suc n) = do dim ← read_le 4; shape ← read_shape n; pure (dim ∷ shape)

unfoldable pub read_ref : Cursor ChunkRef
read_ref = do
  shard_id ← read_le 2
  chunk_offset ← read_le 8
  chunk_len ← read_le 4
  pure (record { shard_id = shard_id; chunk_offset = chunk_offset; chunk_len = chunk_len })

unfoldable pub read_refs : ℕ → Cursor (List ChunkRef)
unfolding read_ref
read_refs zero = pure []
read_refs (suc n) = do chunk_ref ← read_ref; refs ← read_refs n; pure (chunk_ref ∷ refs)

-- One round of the loop. The entry has its attributes in the order in which `into_iter` of their
-- `HashMap` gives them, which is not specified: `iterate` is that order.
unfoldable pub read_entry : (Attrs → Attrs) → Cursor TocEntry
unfolding read_shape read_refs
read_entry iterate = do
  key_hash ← read_le 8
  key_len ← read_le 2
  key_bytes ← read_exact key_len
  key ← lift (Binary.text key_bytes)
  dtype_id_u8 ← read_le 1
  dtype_id ← lift (DType.from_u8 dtype_id_u8)
  ndim ← read_le 1
  shape ← read_shape ndim
  attrs_len ← read_le 4
  attrs_bytes ← read_exact attrs_len
  attrs ← lift (Binary.deserialize attrs_bytes)
  chunk_count ← read_le 2
  chunk_refs ← read_refs chunk_count
  tombstone ← read_le 1
  pure (record {
    key_hash = key_hash;
    key = key;
    dtype_id = dtype_id;
    shape = shape;
    attrs = iterate attrs;
    chunk_refs = chunk_refs;
    tombstone = tombstone;
  })

-- The map of each round has an order of its own.
unfoldable pub read_entries : (ℕ → Attrs → Attrs) → ℕ → Cursor (List TocEntry)
unfolding read_entry
read_entries iterate zero = pure []
read_entries iterate (suc n) = do
  entry ← read_entry (iterate n)
  entries ← read_entries iterate n
  pure (entry ∷ entries)

unfoldable pub deserialize : (ℕ → Attrs → Attrs) → List ℕ → Result Toc
unfolding read_entries
deserialize iterate buf = Error.◌>>=◌ (read_le 4 buf) λ num_entries.
    Error.◌>>=◌ (read_entries iterate num_entries.0 num_entries.1) λ entries. ok (build entries.0)

-- ===== src/Index/Toc/RoundTrip.antt =====
-- The table of contents comes back from its binary form.
use mathlib.Core.List.{Perm}
use mathlib.Core.List.Perm
use orthos_i_dart_tpx.Base.{
  ℕ, ◌<◌, ◌≡◌, ◌∙◌, refl, arith, sym, List, [], ◌∷◌, ◌++◌, length, append_assoc, append-nil, IsU16,
  IsU32, IsU64, All, true,
}
use orthos_i_dart_tpx.Core.Error.{Result, ok}
use orthos_i_dart_tpx.Core.Cursor.{
  Cursor, ◌>>=◌, lift, write_le, read_le_then, read_exact_then, read_le-write_le,
}
use orthos_i_dart_tpx.Core.Types.{ChunkRef}
use orthos_i_dart_tpx.Core.DType as DType
use orthos_i_dart_tpx.Core.Utf8.{is_utf8}
use orthos_i_dart_tpx.Core.Attrs.{Attrs}
use orthos_i_dart_tpx.Core.Attrs.Binary as Binary
use orthos_i_dart_tpx.Core.Attrs.Order.{IsDistinct, put-fresh, front-absent, sorted-Perm}
use orthos_i_dart_tpx.Core.Attrs.RoundTrip.{
  IsEntry, set_attr_small, text_lem, deserialize_attrs-serialize,
}
use orthos_i_dart_tpx.Index.Toc.{TocEntry, Toc, build}
use orthos_i_dart_tpx.Index.Toc.Binary.{
  write_shape, set_all, write_ref, write_refs, write_entry, write_entries, serialize, read_shape,
  read_ref, read_refs, read_entry, read_entries, deserialize,
}

-- `into_iter` of each map gives every attribute once, in any order.
abbrev pub IsIteration : (ℕ → Attrs → Attrs) → Type 0
IsIteration iterate = (n : ℕ) (attrs : Attrs) → Perm (iterate n attrs) attrs

-- The entries with the attributes of each in the order in which its map gives them.
abbrev pub restored : (ℕ → Attrs → Attrs) → List TocEntry → List TocEntry
restored iterate [] = []
restored iterate (e ∷ entries) =
    record e { attrs = iterate (length entries) (Binary.sorted e.attrs) } ∷ restored iterate entries

-- The same entries, up to the order of the attributes of each.
abbrev pub SameEntries : List TocEntry → List TocEntry → Type 0
SameEntries [] es = es ≡ []
SameEntries (d ∷ ds) [] = ⊥
SameEntries (d ∷ ds) (e ∷ es) =
    (d ≡ record e { attrs = d.attrs }) × Perm d.attrs e.attrs × SameEntries ds es

restored-SameEntries :
    (iterate : ℕ → Attrs → Attrs) (entries : List TocEntry)
    → IsIteration iterate
    → SameEntries (restored iterate entries) entries
restored-SameEntries iterate [] all = refl
restored-SameEntries iterate (e ∷ entries) all = (
  refl,
  Perm.trans (all (length entries) (Binary.sorted e.attrs)) (sorted-Perm e.attrs),
  restored-SameEntries iterate entries all,
)

pub record IsRef (r : ChunkRef) : Type 0 where
  pub shard_fits : IsU16 r.shard_id
  pub offset_fits : IsU64 r.chunk_offset
  pub len_fits : IsU32 r.chunk_len

-- An entry that the format can hold.
pub record IsTocEntry (e : TocEntry) : Type 0 where
  pub hash_fits : IsU64 e.key_hash
  pub key_len : IsU16 (length e.key)
  pub key_text : is_utf8 e.key ≡ true
  pub rank : length e.shape < 256
  pub dims : All IsU32 e.shape
  pub each_attr : All IsEntry e.attrs
  pub distinct : IsDistinct e.attrs
  pub attrs_fit : IsU32 (length (Binary.serialize e.attrs))
  pub ref_count : IsU16 (length e.chunk_refs)
  pub refs : All IsRef e.chunk_refs
  pub mark_fits : e.tombstone < 256

module _ {A B : Type 0} where
  run_then :
      (m : Cursor A) (f : A → Cursor B) (bs : List ℕ) (a : A) (rest : List ℕ)
      → m bs ≡ ok (a, rest)
      → (m >>= f) bs ≡ f a rest
  run_then m f bs a rest e = rw (e, ◌>>=◌)

  lift_then :
      (r : Result A) (a : A) (f : A → Cursor B) (bs : List ℕ)
      → r ≡ ok a
      → (lift r >>= f) bs ≡ f a bs
  lift_then r a f bs e = rw e refl

set_all_lem :
    (front attrs : Attrs)
    → All IsEntry attrs
    → IsDistinct (front ++ attrs)
    → set_all front attrs ≡ front ++ attrs
unfolding set_all
set_all_lem front [] all d = sym (append-nil front)
set_all_lem front ((k, v) ∷ attrs) all d =
    let joined = append_assoc front ((k, v) ∷ []) attrs in
    rw
      (
        (set_attr_small front k v all.0.value_len).0,
        put-fresh front k v (front-absent front k v attrs d),
      )
      (set_all_lem (front ++ ((k, v) ∷ [])) attrs all.1 (rw joined d) ∙ joined)

read_shape-write_shape :
    (shape rest : List ℕ)
    → All IsU32 shape
    → read_shape (length shape) (write_shape shape ++ rest) ≡ ok (shape, rest)
unfolding read_shape write_shape
read_shape-write_shape [] rest all = refl
read_shape-write_shape (dim ∷ shape) rest all =
    rw (append_assoc (write_le 4 dim) (write_shape shape) rest) (
      read_le_then _ 4 dim _ all.0
      ∙ run_then (read_shape (length shape)) _ (write_shape shape ++ rest) shape rest
          (read_shape-write_shape shape rest all.1))

read_ref-write_ref :
    (r : ChunkRef) (rest : List ℕ) → IsRef r → read_ref (write_ref r ++ rest) ≡ ok (r, rest)
unfolding read_ref write_ref
read_ref-write_ref r rest v = simp append_assoc (
    read_le_then _ 2 r.shard_id _ (omega (arith, v.shard_fits))
    ∙ read_le_then _ 8 r.chunk_offset _ v.offset_fits
    ∙ read_le_then _ 4 r.chunk_len _ v.len_fits)

read_refs-write_refs :
    (refs : List ChunkRef) (rest : List ℕ)
    → All IsRef refs
    → read_refs (length refs) (write_refs refs ++ rest) ≡ ok (refs, rest)
unfolding read_refs write_refs
read_refs-write_refs [] rest all = refl
read_refs-write_refs (r ∷ refs) rest all = rw (append_assoc (write_ref r) (write_refs refs) rest) (
    run_then read_ref _ (write_ref r ++ (write_refs refs ++ rest)) r (write_refs refs ++ rest)
      (read_ref-write_ref r (write_refs refs ++ rest) all.0)
    ∙ run_then (read_refs (length refs)) _ (write_refs refs ++ rest) refs rest
        (read_refs-write_refs refs rest all.1))

-- The bytes of an entry with the rest behind them.
write_entry_lem :
    (e : TocEntry) (rest : List ℕ)
    → IsTocEntry e
    → write_entry e ++ rest
      ≡ write_le 8 e.key_hash
        ++ (write_le 2 (length e.key)
            ++ (e.key
                ++ (write_le 1 (DType.to_u8 e.dtype_id)
                    ++ (write_le 1 (length e.shape)
                        ++ (write_shape e.shape
                            ++ (write_le 4 (length (Binary.serialize e.attrs))
                                ++ (Binary.serialize e.attrs
                                    ++ (write_le 2 (length e.chunk_refs)
                                        ++ (write_refs e.chunk_refs
                                            ++ (write_le 1 e.tombstone ++ rest))))))))))
unfolding write_entry
write_entry_lem e rest v = rw (set_all_lem [] e.attrs v.each_attr v.distinct) (simp append_assoc)

read_entry-write_entry :
    (iterate : Attrs → Attrs) (e : TocEntry) (rest : List ℕ)
    → IsTocEntry e
    → read_entry iterate (write_entry e ++ rest)
      ≡ ok (record e { attrs = iterate (Binary.sorted e.attrs) }, rest)
unfolding read_entry
read_entry-write_entry iterate e rest v = rw (write_entry_lem e rest v) (
    read_le_then _ 8 e.key_hash _ v.hash_fits
    ∙ read_le_then _ 2 (length e.key) _ v.key_len
    ∙ read_exact_then _ (length e.key) e.key _ refl
    ∙ lift_then _ e.key _ _ (text_lem e.key v.key_text)
    ∙ read_le_then _ 1 (DType.to_u8 e.dtype_id) _ (DType.to_u8-lt e.dtype_id)
    ∙ lift_then _ e.dtype_id _ _ (DType.from_u8-to_u8 e.dtype_id)
    ∙ read_le_then _ 1 (length e.shape) _ v.rank
    ∙ run_then (read_shape (length e.shape)) _ _ e.shape _ (read_shape-write_shape e.shape _ v.dims)
    ∙ read_le_then _ 4 (length (Binary.serialize e.attrs)) _ v.attrs_fit
    ∙ read_exact_then _ _ (Binary.serialize e.attrs) _ refl
    ∙ lift_then _ (Binary.sorted e.attrs) _ _
        (deserialize_attrs-serialize e.attrs v.each_attr v.distinct).0
    ∙ read_le_then _ 2 (length e.chunk_refs) _ v.ref_count
    ∙ run_then (read_refs (length e.chunk_refs)) _ _ e.chunk_refs _
        (read_refs-write_refs e.chunk_refs _ v.refs)
    ∙ read_le_then _ 1 e.tombstone _ v.mark_fits)

read_entries-write_entries :
    (iterate : ℕ → Attrs → Attrs) (entries : List TocEntry) (rest : List ℕ)
    → All IsTocEntry entries
    → read_entries iterate (length entries) (write_entries entries ++ rest)
      ≡ ok (restored iterate entries, rest)
unfolding read_entries write_entries
read_entries-write_entries iterate [] rest all = refl
read_entries-write_entries iterate (e ∷ entries) rest all =
    let n = length entries in
    let behind = write_entries entries ++ rest in
    rw (append_assoc (write_entry e) (write_entries entries) rest) (
      run_then (read_entry (iterate n)) _ (write_entry e ++ behind)
        (record e { attrs = iterate n (Binary.sorted e.attrs) }) behind
        (read_entry-write_entry (iterate n) e behind all.0)
      ∙ run_then (read_entries iterate n) _ behind (restored iterate entries) rest
          (read_entries-write_entries iterate entries rest all.1))

-- A table of fewer than 2 ^ 32 entries that the format can hold comes back from `serialize`, with
-- any bytes behind it and whatever the order in which the hash maps give the attributes: its
-- entries are the same in the same order, each with the same attributes up to their order, and the
-- index is built anew.
pub deserialize_toc-serialize :
    (iterate : ℕ → Attrs → Attrs) (t : Toc) (rest : List ℕ)
    → IsIteration iterate
    → All IsTocEntry t.entries
    → IsU32 (length t.entries)
    → (deserialize iterate (serialize t ++ rest) ≡ ok (build (restored iterate t.entries)))
      × SameEntries (restored iterate t.entries) t.entries
unfolding deserialize serialize
deserialize_toc-serialize iterate t rest order all count = (
  rw
      (
        append_assoc (write_le 4 (length t.entries)) (write_entries t.entries) rest,
        read_le-write_le 4 (length t.entries) (write_entries t.entries ++ rest) count,
        read_entries-write_entries iterate t.entries rest all,
      )
      refl,
  restored-SameEntries iterate t.entries order,
)

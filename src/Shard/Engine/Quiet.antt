-- ===== src/Shard/Engine/Quiet.antt =====
-- Reading from an archive that may not be written leaves it as it is.
use orthos_i_dart_tpx.Base.{
  ℕ, ◌+◌, ◌≡◌, ◌∙◌, refl, List, [], ◌∷◌, length, true, false, ltb, ◌==◌, Bool-cases, Option-cases,
  inl, inr,
}
use orthos_i_dart_tpx.Core.Error.{Result-cases, ◌>>=◌}
use orthos_i_dart_tpx.Core.Types.{ChunkRef, OwnedTensor}
use orthos_i_dart_tpx.Core.DType.{DTypeId}
use orthos_i_dart_tpx.Io.{Backend, can_write, flush_buffer, read_at}
use orthos_i_dart_tpx.Index.Toc.{TocEntry}
use orthos_i_dart_tpx.Shard.{Platform}
use orthos_i_dart_tpx.Shard.Chunks.{open_chunk}
use orthos_i_dart_tpx.Shard.Engine.{Engine}
use orthos_i_dart_tpx.Shard.Engine.Read as Read
use orthos_i_dart_tpx.Shard.Engine.Read.{
  read_chunks, read_tensor_from_entry, find_entry, version_entry, get_each, insert_tensor,
}

-- A backend that may not write, with nothing in its buffer.
pub record IsQuiet (io : Backend) : Type 0 where
  pub refused : can_write io.mode ≡ false
  pub drained : (length io.write_buffer == 0) ≡ true

read_at_quiet : (offset len : ℕ) (io : Backend) → IsQuiet io → (read_at offset len io).0 ≡ io
unfolding read_at flush_buffer
read_at_quiet offset len io q = elim (Bool-cases (ltb io.write_buffer_start (offset + len))) [
  | inl past ↦ rw (past, q.drained) refl
  | inr before ↦ rw before refl
]

-- The archive, the table, the shards, the content store and the mode are those from before.
pub record Untouched {Art : Type 0} (e e' : Engine Art) : Type 0 where
  pub same_io : e'.io ≡ e.io
  pub same_toc : e'.master_toc ≡ e.master_toc
  pub same_shards : e'.shards ≡ e.shards
  pub same_store : e'.content_store ≡ e.content_store
  pub same_mode : e'.mode ≡ e.mode

pub untouched : {Art : Type 0} (e : Engine Art) → Untouched e e
untouched e = record {
  same_io = refl;
  same_toc = refl;
  same_shards = refl;
  same_store = refl;
  same_mode = refl;
}

pub Untouched-trans :
    {Art : Type 0} (e e' e'' : Engine Art) → Untouched e e' → Untouched e' e'' → Untouched e e''
Untouched-trans e e' e'' one more = record {
  same_io = more.same_io ∙ one.same_io;
  same_toc = more.same_toc ∙ one.same_toc;
  same_shards = more.same_shards ∙ one.same_shards;
  same_store = more.same_store ∙ one.same_store;
  same_mode = more.same_mode ∙ one.same_mode;
}

module _ {Art : Type 0} (platform : Platform Art) where
  read_chunks_quiet :
      (dtype : DTypeId) (refs : List ChunkRef) (io : Backend)
      → IsQuiet io
      → (read_chunks platform dtype refs io).0 ≡ io
  unfolding read_chunks
  read_chunks_quiet dtype [] io q = refl
  read_chunks_quiet dtype (r ∷ refs) io q =
      let one = read_at_quiet r.chunk_offset r.chunk_len io q in
      let io' = (read_at r.chunk_offset r.chunk_len io).0 in
      let more = read_chunks_quiet dtype refs io' (rw one q) in
      let bytes = (read_at r.chunk_offset r.chunk_len io).1 in
      elim (Result-cases (bytes >>= open_chunk platform r.chunk_offset dtype)) [
        | inl (part, fine) ↦ rw (read_chunks, fine) (more ∙ one)
        | inr (x, bad) ↦ rw (read_chunks, bad) one
      ]

  read_tensor_quiet :
      (entry : TocEntry) (e : Engine Art)
      → IsQuiet e.io
      → Untouched e (read_tensor_from_entry platform entry e).0
  unfolding read_tensor_from_entry
  read_tensor_quiet entry e q = record {
    same_io = read_chunks_quiet entry.dtype_id entry.chunk_refs e.io q;
    same_toc = refl;
    same_shards = refl;
    same_store = refl;
    same_mode = refl;
  }

  pub get_quiet :
      (key : List ℕ) (e : Engine Art) → IsQuiet e.io → Untouched e (Read.get platform key e).0
  unfolding Read.get
  get_quiet key e q = elim (Option-cases (find_entry platform e key)) [
    | inl absent ↦ rw (Read.get, absent) (untouched e)
    | inr (entry, there) ↦ rw (Read.get, there) (read_tensor_quiet entry e q)
  ]

  pub get_each_quiet :
      (results : List (List ℕ × OwnedTensor)) (entries : List TocEntry) (e : Engine Art)
      → IsQuiet e.io
      → Untouched e (get_each platform results entries e).0
  unfolding get_each
  get_each_quiet results [] e q = untouched e
  get_each_quiet results (entry ∷ rest) e q =
      let e' = (Read.get platform entry.key e).0 in
      let one = get_quiet entry.key e q in
      let q' : IsQuiet e'.io = rw one.same_io q in
      elim (Result-cases (Read.get platform entry.key e).1) [
        | inr (x, bad) ↦ rw (get_each, bad) one
        | inl (found, fine) ↦ elim (Option-cases found) [
          | inl absent ↦
              rw (get_each, fine, absent)
                (Untouched-trans e e' _ one (get_each_quiet results rest e' q'))
          | inr (t, there) ↦
              rw (get_each, fine, there)
                (Untouched-trans e e' _ one
                  (get_each_quiet (insert_tensor results entry.key t) rest e' q'))
        ]
      ]

  pub get_batch_quiet :
      (keys : List (List ℕ)) (e : Engine Art)
      → IsQuiet e.io
      → Untouched e (Read.get_batch platform keys e).0
  unfolding Read.get_batch
  get_batch_quiet [] e q = untouched e
  get_batch_quiet (key ∷ keys) e q =
      let e' = (Read.get platform key e).0 in
      let one = get_quiet key e q in
      let q' : IsQuiet e'.io = rw one.same_io q in
      let both = Untouched-trans e e' _ one (get_batch_quiet keys e' q') in
      elim (Result-cases (Read.get platform key e).1) [
        | inr (x, bad) ↦ rw (Read.get_batch, bad) one
        | inl (found, fine) ↦ elim (Option-cases found) [
          | inl absent ↦ rw (Read.get_batch, fine, absent) both
          | inr (t, there) ↦ rw (Read.get_batch, fine, there) both
        ]
      ]

  pub get_version_quiet :
      (key : List ℕ) (version : ℕ) (e : Engine Art)
      → IsQuiet e.io
      → Untouched e (Read.get_version platform key version e).0
  unfolding Read.get_version
  get_version_quiet key version e q = elim (Result-cases (version_entry platform e key version)) [
    | inl (entry, there) ↦ rw (Read.get_version, there) (read_tensor_quiet entry e q)
    | inr (x, bad) ↦ rw (Read.get_version, bad) (untouched e)
  ]

-- ===== src/Shard/Engine/Batch.antt =====
-- `put_batch` of `ShardedEngine` (crates/tpx-shard/src/engine.rs). The threads share out the tensors
-- and their results are joined in the order of the tensors, so that the number of threads does not
-- matter; a thread that panics is not modelled.
use orthos_i_dart_tpx.Base.{
  ℕ, ◌+◌, ◌%◌, ◌^◌, List, [], ◌∷◌, ◌++◌, length, map, take, drop, true, false, ◌==◌, none, some,
}
use orthos_i_dart_tpx.Core.Error.{Result, ok, err, read_only_mode}
use orthos_i_dart_tpx.Core.Types.{ChunkRef}
use orthos_i_dart_tpx.Core.DType.{DTypeId}
use orthos_i_dart_tpx.Io.{Backend, append_bytes, can_write}
use orthos_i_dart_tpx.Filter.Dispatch.{apply}
use orthos_i_dart_tpx.Codec.AutoSelect.{auto_select}
use orthos_i_dart_tpx.Codec.Dispatch.{compress}
use orthos_i_dart_tpx.Dedup.Cdc.{CdcSegment, cdc_chunk, default_config}
use orthos_i_dart_tpx.Dedup.ContentStore as ContentStore
use orthos_i_dart_tpx.Dedup.ContentStore.{ContentStore, ContentEntry}
use orthos_i_dart_tpx.Index.Toc as Toc
use orthos_i_dart_tpx.Version as Version
use orthos_i_dart_tpx.Version.{VersionChain}
use orthos_i_dart_tpx.Shard.{Platform, Shard, Chains, get_chain, set_chain}
use orthos_i_dart_tpx.Shard.Checkpoint.{record_bytes_written}
use orthos_i_dart_tpx.Shard.Chunks.{chunk_bytes}
use orthos_i_dart_tpx.Shard.Engine.{
  Engine, shard_of, update_shard, release_all, index_refs, evicted_from, checkpoint_if_due,
}

-- One tensor of the call: its key, its data, its type and its shape.
pub record BatchTensor : Type 0 where
  pub key : List ℕ
  pub bytes : List ℕ
  pub dtype : DTypeId
  pub shape : List ℕ

pub record ProcessedChunk : Type 0 where
  pub content_hash : ℕ
  pub chunk_data : List ℕ

pub record ProcessedTensor : Type 0 where
  pub shard_id : ℕ
  pub chunks : List ProcessedChunk

-- The source names the place of the chunk in `tensor_chunk_refs` by two indices.
pub record PendingWrite : Type 0 where
  pub buffer_offset : ℕ
  pub chunk_len : ℕ
  pub content_hash : ℕ
  pub shard_id : ℕ

-- A place of `tensor_chunk_refs`: the reference to a chunk of the store, or the write that is going
-- to fill it.
pub data Place : Type 0 where
  held : ChunkRef → Place
  pending : PendingWrite → Place

-- The step of the deduplication on one chunk: the store and the buffer after it, and the place.
unfoldable pub place_chunk :
    ℕ → ProcessedChunk → ContentStore → List ℕ → ContentStore × List ℕ × Place
place_chunk shard_id chunk store buffer = elim (ContentStore.lookup store chunk.content_hash) [
  | some existing ↦ (
    (ContentStore.add_ref store chunk.content_hash).0,
    buffer,
    held (record {
      shard_id = existing.shard_id;
      chunk_offset = existing.chunk_offset;
      chunk_len = existing.chunk_len;
    }),
  )
  | none ↦ (
    store,
    buffer ++ chunk.chunk_data,
    pending (record {
      buffer_offset = length buffer;
      chunk_len = length chunk.chunk_data % 2 ^ 32;
      content_hash = chunk.content_hash;
      shard_id = shard_id;
    }),
  )
]

unfoldable pub place_chunks :
    ℕ → List ProcessedChunk → ContentStore → List ℕ → ContentStore × List ℕ × List Place
unfolding place_chunk
place_chunks shard_id [] store buffer = (store, buffer, [])
place_chunks shard_id (chunk ∷ chunks) store buffer =
    let (store1, buffer1, place) = place_chunk shard_id chunk store buffer in
    let (store2, buffer2, places) = place_chunks shard_id chunks store1 buffer1 in
    (store2, buffer2, place ∷ places)

unfoldable pub place_tensors :
    List ProcessedTensor → ContentStore → List ℕ → ContentStore × List ℕ × List (List Place)
unfolding place_chunks
place_tensors [] store buffer = (store, buffer, [])
place_tensors (t ∷ tensors) store buffer =
    let (store1, buffer1, places) = place_chunks t.shard_id t.chunks store buffer in
    let (store2, buffer2, more) = place_tensors tensors store1 buffer1 in
    (store2, buffer2, places ∷ more)

-- The reference in a place once the buffer stands at `base`.
unfoldable pub filled : ℕ → Place → ChunkRef
filled base (held r) = r
filled base (pending w) = record {
  shard_id = w.shard_id;
  chunk_offset = (base + w.buffer_offset) % 2 ^ 64;
  chunk_len = w.chunk_len;
}

-- `or_insert_with(VersionChain::new)`; the retention of a chain that is there stays.
unfoldable pub batch_chain_for : Chains → List ℕ → VersionChain
batch_chain_for chains key = elim (get_chain chains key) [
  | some c ↦ c
  | none ↦ Version.new key Version.keep_latest
]

-- The chain of the key with the new version in it, and the hashes that were evicted.
unfoldable pub append_batch_version :
    {Art : Type 0} → ℕ → BatchTensor → List ℕ → Shard Art → Shard Art × List ℕ
unfolding batch_chain_for
append_batch_version now t hashes s =
    let appended =
      Version.append now t.dtype t.shape [] hashes (batch_chain_for s.version_chains t.key) in
    (record s { version_chains = set_chain s.version_chains t.key (appended.0) }, appended.2)

-- What the loop over the pending writes does for one place.
unfoldable pub settle : {Art : Type 0} → ℕ → Place → Engine Art → Engine Art
settle base (held r) e = e
settle base (pending w) e =
    let entry : ContentEntry = record {
      shard_id = w.shard_id;
      chunk_offset = (base + w.buffer_offset) % 2 ^ 64;
      chunk_len = w.chunk_len;
      refcount = 1;
    } in
    record e {
      content_store = (ContentStore.insert e.content_store w.content_hash entry).0;
      checkpoint_coordinator = record_bytes_written w.chunk_len e.checkpoint_coordinator;
    }

unfoldable pub settle_all : {Art : Type 0} → ℕ → List Place → Engine Art → Engine Art
unfolding settle
settle_all base [] e = e
settle_all base (p ∷ places) e = settle_all base places (settle base p e)

unfoldable pub settle_tensors : {Art : Type 0} → ℕ → List (List Place) → Engine Art → Engine Art
unfolding settle_all
settle_tensors base [] e = e
settle_tensors base (places ∷ more) e = settle_tensors base more (settle_all base places e)

-- The one append of all new chunks, if there are any: the backend and the offset.
unfoldable pub append_coalesced : List ℕ → Backend → Backend × Result ℕ
append_coalesced [] io = (io, ok 0)
append_coalesced (b ∷ buffer) io = append_bytes (b ∷ buffer) io

module _ {Art : Type 0} (platform : Platform Art) where
  -- A segment whose compression fails is stored as it is, under the codec that was selected.
  unfoldable pub process_segment : DTypeId → ℕ → List ℕ → CdcSegment → ProcessedChunk
  process_segment dtype chunk_align bytes seg =
      let raw_segment = take seg.len (drop seg.offset bytes) in
      let selection = auto_select platform.high_entropy raw_segment dtype true in
      let filtered = apply selection.filter raw_segment dtype in
      let compressed : List ℕ =
        elim (compress platform.compressors selection.codec filtered selection.level dtype) [
          | ok c ↦ c
          | err x ↦ raw_segment
        ] in
      record {
        content_hash = seg.content_hash;
        chunk_data = chunk_bytes platform selection seg.len chunk_align compressed;
      }

  unfoldable pub process_tensor : Engine Art → BatchTensor → ProcessedTensor
  unfolding process_segment
  process_tensor e t = record {
    shard_id = shard_of platform e t.key;
    chunks =
        map (process_segment t.dtype e.header.chunk_align t.bytes)
          (cdc_chunk platform.xxh3_128 t.bytes default_config);
  }

  -- What is recorded of one tensor once its chunks are in the archive.
  unfoldable pub record_tensor :
      ℕ → BatchTensor → ProcessedTensor → List ChunkRef → Engine Art → Engine Art
  unfolding append_batch_version
  record_tensor now t pt refs e =
      let hashes = map (λ (c : ProcessedChunk). c.content_hash) pt.chunks in
      let indexed = update_shard pt.shard_id (index_refs platform t.key refs) e.shards in
      let versioned = append_batch_version now t hashes in
      record e {
        shards = update_shard pt.shard_id (λ s. (versioned s).0) indexed;
        content_store =
            release_all e.content_store (evicted_from platform indexed pt.shard_id versioned);
        master_toc =
            Toc.add_entry e.master_toc
              (Toc.new_entry (λ k. platform.xxh64 k 0) t.key t.dtype t.shape [] refs);
      }

  -- The loop over the tensors; `processed` and `places` have an element for each.
  unfoldable pub record_tensors :
      ℕ → ℕ → List BatchTensor → List ProcessedTensor → List (List Place) → Engine Art → Engine Art
  unfolding record_tensor filled
  record_tensors now base [] processed places e = e
  record_tensors now base (t ∷ tensors) [] places e = e
  record_tensors now base (t ∷ tensors) (pt ∷ processed) [] e = e
  record_tensors now base (t ∷ tensors) (pt ∷ processed) (ps ∷ places) e =
      record_tensors now base tensors processed places
        (record_tensor now t pt (map (filled base) ps) e)

  unfoldable pub put_batch : ℕ → List BatchTensor → Engine Art → Engine Art × Result (Unit {0})
  unfolding process_tensor place_tensors append_coalesced settle_tensors record_tensors
  put_batch now tensors e = elim (can_write e.mode) [
    | false ↦ (e, err read_only_mode)
    | true ↦ elim (length tensors == 0) [
      | true ↦ (e, ok tt)
      | false ↦
          let processed = map (process_tensor e) tensors in
          let placed = place_tensors processed e.content_store [] in
          let appended = append_coalesced (placed.1) e.io in
          let e1 : Engine Art = record e { io = appended.0; content_store = placed.0 } in
          elim (appended.1) [
            | err x ↦ (e1, err x)
            | ok base ↦ checkpoint_if_due platform now (
                record_tensors now base tensors processed (placed.2)
                  (settle_tensors base (placed.2) e1))
          ]
    ]
  ]

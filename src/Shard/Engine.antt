-- ===== src/Shard/Engine.antt =====
-- crates/tpx-shard/src/engine.rs: the state of `ShardedEngine`, and its writing operations. The clock
-- `now`, in milliseconds, is an argument. Locks are not modelled: one call runs after another.
pub mod Read
pub mod Batch
pub mod Admin
pub mod Store
pub mod Segments
pub mod PutGet
pub mod Answers
pub mod Quiet
pub mod ReadOnly
pub mod Created
pub mod Compaction
pub mod Examples
use orthos_i_dart_tpx.Base.{
  ℕ, zero, suc, ◌+◌, ◌-◌, ◌*◌, ◌%◌, ◌^◌, List, [], ◌∷◌, ◌++◌, length, take, drop, Bool, true, false,
  ltb, leb, ◌==◌, ◌&&◌, if◌then◌else◌, Option, none, some, bytes_eq,
}
use orthos_i_dart_tpx.Core.Error.{Result, ok, err, read_only_mode}
use orthos_i_dart_tpx.Core.Types.{OpenMode, read_only, ChunkRef}
use orthos_i_dart_tpx.Core.DType.{DTypeId}
use orthos_i_dart_tpx.Core.Attrs.{Attrs}
use orthos_i_dart_tpx.Core.Header.{FileHeader}
use orthos_i_dart_tpx.Core.Footer.{Footer}
use orthos_i_dart_tpx.Io.{Backend, append_bytes, can_write}
use orthos_i_dart_tpx.Dedup.Cdc.{CdcSegment, cdc_chunk, default_config}
use orthos_i_dart_tpx.Dedup.ContentStore as ContentStore
use orthos_i_dart_tpx.Dedup.ContentStore.{ContentStore, ContentEntry}
use orthos_i_dart_tpx.Index.Toc as Toc
use orthos_i_dart_tpx.Index.Toc.{Toc, TocEntry}
use orthos_i_dart_tpx.Version as Version
use orthos_i_dart_tpx.Version.{VersionChain, RetentionPolicy}
use orthos_i_dart_tpx.Shard.{
  Platform, Shard, Chains, get_chain, set_chain, remove_chain, shard_for_key,
}
use orthos_i_dart_tpx.Shard.Checkpoint.{
  CheckpointCoordinator, Checkpointed, record_bytes_written, should_checkpoint, execute_checkpoint,
}
use orthos_i_dart_tpx.Shard.Chunks.{make_chunk}
use orthos_i_dart_tpx.Shard.Retention.{retention_policy}

pub record Engine (Art : Type 0) : Type 0 where
  pub mode : OpenMode
  pub shards : List (Shard Art)
  pub io : Backend
  pub header : FileHeader
  pub master_toc : Toc
  pub content_store : ContentStore
  pub checkpoint_coordinator : CheckpointCoordinator
  pub is_closed : Bool

-- A change of `shards[i]`.
unfoldable pub update_shard :
    {Art : Type 0} → ℕ → (Shard Art → Shard Art) → List (Shard Art) → List (Shard Art)
update_shard i f [] = []
update_shard zero f (s ∷ shards) = f s ∷ shards
update_shard (suc i) f (s ∷ shards) = s ∷ update_shard i f shards

-- `or_insert_with(VersionChain::new)` and the new retention.
unfoldable pub chain_for : Chains → List ℕ → RetentionPolicy → VersionChain
chain_for chains key retention = elim (get_chain chains key) [
  | some c ↦ record c { retention = retention }
  | none ↦ Version.new key retention
]

-- `release` of each evicted hash.
unfoldable pub release_all : ContentStore → List ℕ → ContentStore
release_all store [] = store
release_all store (h ∷ hashes) = release_all (ContentStore.release store h).0 hashes

unfoldable pub content_hashes : List CdcSegment → List ℕ
content_hashes [] = []
content_hashes (seg ∷ segs) = seg.content_hash ∷ content_hashes segs

module _ {Art : Type 0} (platform : Platform Art) where
  unfoldable pub shard_of : Engine Art → List ℕ → ℕ
  shard_of e key = shard_for_key platform key (length e.shards % 2 ^ 16)

  -- A segment that the content store does not have.
  unfoldable pub put_new : ℕ → DTypeId → ℕ → List ℕ → Engine Art → Engine Art × Result ChunkRef
  unfolding make_chunk
  put_new s_id dtype content_hash raw_segment e =
      elim (make_chunk platform raw_segment dtype e.header.chunk_align) [
        | err x ↦ (e, err x)
        | ok bytes ↦
            let appended = append_bytes bytes e.io in
            elim (appended.1) [
              | err x ↦ (record e { io = appended.0 }, err x)
              | ok offset ↦
                  let chunk_len = length bytes % 2 ^ 32 in
                  let entry : ContentEntry = record {
                    shard_id = s_id;
                    chunk_offset = offset;
                    chunk_len = chunk_len;
                    refcount = 1;
                  } in
                  (
                    record e {
                      io = appended.0;
                      content_store = (ContentStore.insert e.content_store content_hash entry).0;
                      checkpoint_coordinator =
                          record_bytes_written chunk_len e.checkpoint_coordinator;
                    },
                    ok (record { shard_id = s_id; chunk_offset = offset; chunk_len = chunk_len }),
                  )
            ]
      ]

  -- One round of the loop over the segments.
  unfoldable pub put_segment :
      ℕ → DTypeId → List ℕ → CdcSegment → Engine Art → Engine Art × Result ChunkRef
  unfolding put_new
  put_segment s_id dtype bytes seg e = elim (ContentStore.lookup e.content_store seg.content_hash) [
    | some existing ↦ (
      record e { content_store = (ContentStore.add_ref e.content_store seg.content_hash).0 },
      ok (record {
        shard_id = existing.shard_id;
        chunk_offset = existing.chunk_offset;
        chunk_len = existing.chunk_len;
      }),
    )
    | none ↦ put_new s_id dtype seg.content_hash (take seg.len (drop seg.offset bytes)) e
  ]

  unfoldable pub put_segments :
      ℕ → DTypeId → List ℕ → List CdcSegment → Engine Art → Engine Art × Result (List ChunkRef)
  put_segments s_id dtype bytes [] e = (e, ok [])
  put_segments s_id dtype bytes (seg ∷ segs) e =
      let first = put_segment s_id dtype bytes seg e in
      let more = put_segments s_id dtype bytes segs (first.0) in
      elim (first.1) [
        | err x ↦ (first.0, err x)
        | ok chunk_ref ↦ elim (more.1) [
          | err x ↦ (more.0, err x)
          | ok chunk_refs ↦ (more.0, ok (chunk_ref ∷ chunk_refs))
        ]
      ]

  -- The tree and the count of the key's shard, if there is a chunk.
  unfoldable pub index_refs : List ℕ → List ChunkRef → Shard Art → Shard Art
  index_refs key [] s = s
  index_refs key (r ∷ refs) s = record s {
    art = platform.art.insert_art key r s.art;
    chunk_count = (s.chunk_count + length (r ∷ refs)) % 2 ^ 64;
  }

  -- The chain of the key with the new version in it, and the hashes that were evicted.
  unfoldable pub append_version :
      ℕ
      → List ℕ
      → RetentionPolicy
      → DTypeId
      → List ℕ
      → Attrs
      → List ℕ
      → Shard Art
      → Shard Art × List ℕ
  unfolding chain_for
  append_version now key retention dtype shape attrs hashes s =
      let appended =
        Version.append now dtype shape attrs hashes (chain_for s.version_chains key retention) in
      (record s { version_chains = set_chain s.version_chains key (appended.0) }, appended.2)

  unfoldable pub evicted_from : List (Shard Art) → ℕ → (Shard Art → Shard Art × List ℕ) → List ℕ
  evicted_from [] i f = []
  evicted_from (s ∷ shards) zero f = (f s).1
  evicted_from (s ∷ shards) (suc i) f = evicted_from shards i f

  -- What `put_with_retention` records once the chunks are written.
  unfoldable pub record_put :
      ℕ
      → List ℕ
      → RetentionPolicy
      → DTypeId
      → List ℕ
      → Attrs
      → List ℕ
      → List ChunkRef
      → Engine Art
      → Engine Art
  unfolding append_version evicted_from index_refs update_shard release_all
  record_put now key retention dtype shape attrs hashes chunk_refs e =
      let s_id = shard_of e key in
      let indexed = update_shard s_id (index_refs key chunk_refs) e.shards in
      let versioned = append_version now key retention dtype shape attrs hashes in
      record e {
        shards = update_shard s_id (λ s. (versioned s).0) indexed;
        content_store = release_all e.content_store (evicted_from indexed s_id versioned);
        master_toc =
            Toc.add_entry e.master_toc
              (Toc.new_entry (λ k. platform.xxh64 k 0) key dtype shape attrs chunk_refs);
      }

  unfoldable pub checkpoint_as : Bool → ℕ → Engine Art → Engine Art × Result Footer
  checkpoint_as is_final now e =
      let before : Checkpointed Art = record {
        coordinator = e.checkpoint_coordinator;
        shards = e.shards;
        io = e.io;
      } in
      let done = execute_checkpoint platform.xxh64 now before e.master_toc is_final in
      (
        record e {
          checkpoint_coordinator = (done.0).coordinator;
          shards = (done.0).shards;
          io = (done.0).io;
        },
        done.1,
      )

  -- `checkpoint`.
  unfoldable pub checkpoint : ℕ → Engine Art → Engine Art × Result Footer
  unfolding checkpoint_as
  checkpoint now e = checkpoint_as false now e

  unfoldable pub checkpoint_if_due : ℕ → Engine Art → Engine Art × Result (Unit {0})
  unfolding checkpoint
  checkpoint_if_due now e =
      let done = checkpoint now e in
      if should_checkpoint now e.checkpoint_coordinator
      then elim (done.1) [ err x ↦ (done.0, err x) | ok footer ↦ (done.0, ok tt) ]
      else (e, ok tt)

  -- `attrs` has the attributes in the order in which `into_iter` of their map gives them.
  unfoldable pub put_with_retention :
      ℕ
      → List ℕ
      → List ℕ
      → DTypeId
      → List ℕ
      → Attrs
      → List ℕ
      → Engine Art
      → Engine Art × Result (Unit {0})
  unfolding shard_of retention_policy content_hashes put_segments record_put checkpoint_if_due
  put_with_retention now key bytes dtype shape attrs retain e = elim (can_write e.mode) [
    | false ↦ (e, err read_only_mode)
    | true ↦
        let segments = cdc_chunk platform.xxh3_128 bytes default_config in
        let stored = put_segments (shard_of e key) dtype bytes segments e in
        elim (stored.1) [
          | err x ↦ (stored.0, err x)
          | ok chunk_refs ↦ checkpoint_if_due now (
              record_put now key (retention_policy retain) dtype shape attrs
                (content_hashes segments) chunk_refs (stored.0))
        ]
  ]

  -- `put`.
  unfoldable pub put :
      ℕ → List ℕ → List ℕ → DTypeId → List ℕ → Attrs → Engine Art → Engine Art × Result (Unit {0})
  unfolding put_with_retention
  put now key bytes dtype shape attrs e =
      put_with_retention now key bytes dtype shape attrs
        (b'k' ∷ b'e' ∷ b'e' ∷ b'p' ∷ b'_' ∷ b'l' ∷ b'a' ∷ b't' ∷ b'e' ∷ b's' ∷ b't' ∷ []) e

  -- What `delete` does to the key's shard.
  unfoldable pub forget : List ℕ → Shard Art → Shard Art
  forget key s = record s {
    art = platform.art.remove_art key s.art;
    version_chains = remove_chain s.version_chains key;
  }

  unfoldable pub delete : List ℕ → Engine Art → Engine Art × Result (Unit {0})
  unfolding shard_of update_shard forget
  delete key e =
      if can_write e.mode
      then (
        record e {
          shards = update_shard (shard_of e key) (forget key) e.shards;
          master_toc = Toc.tombstone e.master_toc key;
        },
        ok tt,
      )
      else (e, err read_only_mode)

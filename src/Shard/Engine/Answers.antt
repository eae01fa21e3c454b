-- ===== src/Shard/Engine/Answers.antt =====
-- What the engine answers: `get` after `put` and after `delete`.
use orthos_i_dart_tpx.Base.{
  ℕ, ◌<◌, ◌^◌, ◌≡◌, ◌∙◌, refl, arith, sym, List, [], ◌∷◌, ◌++◌, length, append_assoc, append-nil,
  All, All-append, true, if◌then◌else◌, Bool-cases, inl, inr, some, none, bytes_eq,
}
use orthos_i_dart_tpx.Core.Error.{Result, ok}
use orthos_i_dart_tpx.Core.Types.{ChunkRef}
use orthos_i_dart_tpx.Core.DType.{DTypeId}
use orthos_i_dart_tpx.Core.Attrs.{Attrs}
use orthos_i_dart_tpx.Io.{can_write}
use orthos_i_dart_tpx.Io.Contents.{contents}
use orthos_i_dart_tpx.Dedup.Cdc.{CdcSegment, cdc_chunk, default_config}
use orthos_i_dart_tpx.Dedup.Cdc.Tiling as Tiling
use orthos_i_dart_tpx.Index.Toc as Toc
use orthos_i_dart_tpx.Index.Toc.{Toc, TocEntry}
use orthos_i_dart_tpx.Index.Toc.Lookup.{Apart}
use orthos_i_dart_tpx.Index.Toc.Updates.{lookup-add_entry, lookup-tombstone}
use orthos_i_dart_tpx.Version.{RetentionPolicy}
use orthos_i_dart_tpx.Shard.{Platform}
use orthos_i_dart_tpx.Shard.Chunks.RoundTrip.{IsPlatform}
use orthos_i_dart_tpx.Shard.Engine.{
  Engine, put_segments, record_put, put_with_retention, checkpoint_if_due, shard_of, content_hashes,
  delete, evicted_from, update_shard, index_refs, append_version, forget,
}
use orthos_i_dart_tpx.Shard.Engine.Read.{find_entry, get}
use orthos_i_dart_tpx.Shard.Engine.Store.{Ready, HoldsAll, slice}
use orthos_i_dart_tpx.Shard.Engine.Segments.{put_segments_lem}
use orthos_i_dart_tpx.Shard.Retention.{retention_policy}
use orthos_i_dart_tpx.Shard.Engine.PutGet.{
  IsEngine, Readable, HoldsAll-append, Readable-append, Tiles-IsSegment, get_found, get_absent,
  get_same, IsStored-release_all, checkpoint_if_due_lem,
}

module _ {Art : Type 0} (platform : Platform Art) (Known : List ℕ → Type 0) where
  Readable-tombstone :
      (bytes key : List ℕ) (entries : List TocEntry)
      → Readable platform Known bytes entries
      → Readable platform Known bytes (Toc.tombstone_entries key entries)
  unfolding Toc.tombstone_entries
  Readable-tombstone bytes key [] all = tt
  Readable-tombstone bytes key (e ∷ entries) all = elim (Bool-cases (bytes_eq e.key key)) [
    | inl here ↦ rw here (all.0, Readable-tombstone bytes key entries all.1)
    | inr there ↦ rw there (all.0, Readable-tombstone bytes key entries all.1)
  ]

  -- What a `put` leaves behind.
  record Put (e : Engine Art) (key : List ℕ) (dtype : DTypeId) (shape : List ℕ) (attrs : Attrs)
      (bytes : List ℕ) (r : Engine Art × Result (Unit {0})) : Type 0 where
    chunk_refs : List ChunkRef
    replied : r.1 ≡ ok tt
    ready : Ready platform Known r.0
    more : List ℕ
    grown : contents r.0.io ≡ contents e.io ++ more
    held : HoldsAll platform Known (contents r.0.io) chunk_refs bytes
    table :
        r.0.master_toc
        ≡ Toc.add_entry e.master_toc
            (Toc.new_entry (λ k. platform.xxh64 k 0) key dtype shape attrs chunk_refs)

  record_put-Ready :
      (now : ℕ) (key : List ℕ) (retention : RetentionPolicy) (dtype : DTypeId) (shape : List ℕ)
      (attrs : Attrs) (hashes : List ℕ) (refs : List ChunkRef) (e : Engine Art)
      → Ready platform Known e
      → Ready platform Known (record_put platform now key retention dtype shape attrs hashes refs e)
  unfolding record_put
  record_put-Ready now key retention dtype shape attrs hashes refs e ready =
      let s_id = shard_of platform e key in
      let evicted =
        evicted_from platform (update_shard s_id (index_refs platform key refs) e.shards) s_id
          (append_version platform now key retention dtype shape attrs hashes) in
      record {
        io_ok = ready.io_ok;
        writable = ready.writable;
        align_small = ready.align_small;
        stored =
            IsStored-release_all platform Known (contents e.io) evicted e.content_store
              ready.stored;
      }

  module _ (v : IsPlatform platform)
      (apart : (a b : List ℕ)
        → Known a
        → Known b
        → platform.xxh3_128 a ≡ platform.xxh3_128 b
        → a ≡ b) where
    put_lem :
        (now : ℕ) (key bytes : List ℕ) (dtype : DTypeId) (shape : List ℕ) (attrs : Attrs)
        (retain : List ℕ) (e : Engine Art)
        → can_write e.mode ≡ true
        → Ready platform Known e
        → All
            (λ (seg : CdcSegment). Known (slice bytes seg))
            (cdc_chunk platform.xxh3_128 bytes default_config)
        → Put e key dtype shape attrs bytes
            (put_with_retention platform now key bytes dtype shape attrs retain e)
    unfolding put_with_retention record_put
    put_lem now key bytes dtype shape attrs retain e can ready known =
        let segments = cdc_chunk platform.xxh3_128 bytes default_config in
        let tiles =
          Tiling.cdc_chunk-Tiles platform.xxh3_128 bytes default_config (omega arith)
            (omega arith) in
        let stored =
          put_segments_lem platform Known v (shard_of platform e key) dtype bytes segments e apart
            (Tiles-IsSegment platform Known v apart bytes 0 segments tiles known) ready in
        let e1 = (put_segments platform (shard_of platform e key) dtype bytes segments e).0 in
        let e2 =
          record_put platform now key (retention_policy retain) dtype shape attrs
            (content_hashes segments) stored.chunk_refs e1 in
        let ready2 : Ready platform Known e2 =
          record_put-Ready now key (retention_policy retain) dtype shape attrs
            (content_hashes segments) stored.chunk_refs e1 stored.ready in
        let done = checkpoint_if_due_lem platform Known now e2 ready2 in
        let whole =
          Tiling.cdc_chunk-contents platform.xxh3_128 bytes default_config (omega arith)
            (omega arith) in
        let facts : Put e key dtype shape attrs bytes (checkpoint_if_due platform now e2) = record {
          chunk_refs = stored.chunk_refs;
          replied = done.replied;
          ready = done.ready;
          more = stored.more ++ done.more;
          grown =
              done.grown
              ∙ rw (stored.grown, append_assoc (contents e.io) stored.more done.more) refl;
          held = rw done.grown (
              HoldsAll-append platform Known (contents e1.io) done.more stored.chunk_refs bytes
                (rw whole at stored.held));
          table = done.same_toc ∙ rw stored.same_toc refl;
        } in
        rw (put_with_retention, can, stored.replied) facts

    -- The table and the archive after a `put`, and the answer of `get` under any key.
    answers_after :
        (key : List ℕ) (dtype : DTypeId) (shape : List ℕ) (attrs : Attrs) (bytes j : List ℕ)
        (e : Engine Art) (r : Engine Art × Result (Unit {0}))
        → IsEngine platform Known v apart e
        → length e.master_toc.entries < 2 ^ 32
        → Apart (λ k. platform.xxh64 k 0) j e.master_toc.entries
        → (platform.xxh64 key 0 ≡ platform.xxh64 j 0 → key ≡ j)
        → Put e key dtype shape attrs bytes r
        → IsEngine platform Known v apart r.0
          × ((get platform j r.0).1 ≡ (
              if bytes_eq key j
              then ok (some (record { dtype = dtype; shape = shape; bytes = bytes }))
              else (get platform j e).1))
    unfolding find_entry Toc.new_entry Toc.add_entry
    answers_after key dtype shape attrs bytes j e r is room apart_j apart_key put =
        let xxh = λ (k : List ℕ). platform.xxh64 k 0 in
        let entry = Toc.new_entry xxh key dtype shape attrs put.chunk_refs in
        let (toc, found) =
          lookup-add_entry xxh e.master_toc entry j is.toc room refl
            (All-append _ e.master_toc.entries (entry ∷ []) apart_j (apart_key, tt)) in
        let kept : Readable platform Known (contents r.0.io) e.master_toc.entries = rw put.grown (
          Readable-append platform Known (contents e.io) put.more e.master_toc.entries
            is.readable) in
        (
          record {
            ready = put.ready;
            toc = rw put.table toc;
            readable =
                rw put.table
                  (All-append _ e.master_toc.entries (entry ∷ []) kept ((bytes, put.held), tt));
          },
          elim (Bool-cases (bytes_eq key j)) [
            | inl here ↦
                let hit : find_entry platform r.0 j ≡ some entry =
                  rw put.table (rw here at found) in
                rw here
                  (get_found platform Known v apart j r.0 entry bytes hit put.ready.io_ok put.held)
            | inr there ↦
                let same : find_entry platform r.0 j ≡ find_entry platform e j =
                  rw put.table (rw there at found) in
                rw there (
                  get_same platform Known v apart j e r.0 put.more is apart_j put.ready.io_ok
                    put.grown same)
          ],
        )

    -- In an engine in order that may write, with room in the table, whose hashes do not collide: a
    -- `put` of data whose segments are all among the contents in play succeeds, at any time and with
    -- any retention, whether a checkpoint is due or not. It leaves an engine in order, in which `get`
    -- returns the data under the key, with its element type and shape, and under any other key what
    -- it returned before.
    pub get-put :
        (now : ℕ) (key bytes : List ℕ) (dtype : DTypeId) (shape : List ℕ) (attrs : Attrs)
        (retain j : List ℕ) (e : Engine Art)
        → IsEngine platform Known v apart e
        → can_write e.mode ≡ true
        → length e.master_toc.entries < 2 ^ 32
        → All
            (λ (seg : CdcSegment). Known (slice bytes seg))
            (cdc_chunk platform.xxh3_128 bytes default_config)
        → Apart (λ k. platform.xxh64 k 0) j e.master_toc.entries
        → (platform.xxh64 key 0 ≡ platform.xxh64 j 0 → key ≡ j)
        → let r = put_with_retention platform now key bytes dtype shape attrs retain e in
          (r.1 ≡ ok tt)
          × IsEngine platform Known v apart r.0
          × ((get platform j r.0).1 ≡ (
              if bytes_eq key j
              then ok (some (record { dtype = dtype; shape = shape; bytes = bytes }))
              else (get platform j e).1))
    get-put now key bytes dtype shape attrs retain j e is can room known apart_j apart_key =
        let put = put_lem now key bytes dtype shape attrs retain e can is.ready known in
        let (is', answer) =
          answers_after key dtype shape attrs bytes j e _ is room apart_j apart_key put in
        (put.replied, is', answer)

    -- In an engine in order that may write, whose hashes do not collide: `delete` succeeds and leaves
    -- an engine in order, in which `get` finds nothing under the key, and under any other key what it
    -- found before.
    pub get-delete :
        (key j : List ℕ) (e : Engine Art)
        → IsEngine platform Known v apart e
        → can_write e.mode ≡ true
        → Apart (λ k. platform.xxh64 k 0) j e.master_toc.entries
        → let r = delete platform key e in
          (r.1 ≡ ok tt)
          × IsEngine platform Known v apart r.0
          × ((get platform j r.0).1 ≡ (if bytes_eq key j then ok none else (get platform j e).1))
    unfolding delete find_entry Toc.tombstone
    get-delete key j e is can apart_j =
        let xxh = λ (k : List ℕ). platform.xxh64 k 0 in
        let (toc, found) = lookup-tombstone xxh e.master_toc key j is.toc apart_j in
        let e' : Engine Art = record e {
          shards = update_shard (shard_of platform e key) (forget platform key) e.shards;
          master_toc = Toc.tombstone e.master_toc key;
        } in
        let is' : IsEngine platform Known v apart e' = record {
          ready = record {
            io_ok = is.ready.io_ok;
            writable = is.ready.writable;
            align_small = is.ready.align_small;
            stored = is.ready.stored;
          };
          toc = toc;
          readable = Readable-tombstone (contents e.io) key e.master_toc.entries is.readable;
        } in
        rw (delete, can)
          (
            refl,
            is',
            elim (Bool-cases (bytes_eq key j)) [
              | inl here ↦ rw here (get_absent platform Known v apart j e' (rw here at found))
              | inr there ↦ rw there (
                  get_same platform Known v apart j e e' [] is apart_j is.ready.io_ok
                    (sym (append-nil _)) (rw there at found))
            ],
          )

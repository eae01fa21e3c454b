-- ===== src/Shard/Engine/Segments.antt =====
-- What writing the segments of a `put` does to the archive and the content store.
use orthos_i_dart_tpx.Base.{
  ℕ, ◌%◌, ◌^◌, ◌<◌, ◌≡◌, ◌∙◌, refl, arith, sym, List, [], ◌∷◌, ◌++◌, length, append_assoc,
  append-nil, Option-cases, All, inl, inr, some,
}
use orthos_i_dart_tpx.Core.DType.{DTypeId}
use orthos_i_dart_tpx.Io.Contents.{contents, append_bytes_lem}
use orthos_i_dart_tpx.Dedup.ContentStore as ContentStore
use orthos_i_dart_tpx.Dedup.ContentStore.{ContentStore, ContentEntry}
use orthos_i_dart_tpx.Dedup.ContentStore.Counts.{lookup-add_ref, bump}
use orthos_i_dart_tpx.Dedup.Cdc.{CdcSegment}
use orthos_i_dart_tpx.Dedup.Cdc.Tiling as Tiling
use orthos_i_dart_tpx.Shard.{Platform}
use orthos_i_dart_tpx.Shard.Chunks.RoundTrip.{IsPlatform, chunk_of, make_chunk_lem, length-chunk_of}
use orthos_i_dart_tpx.Shard.Engine.{Engine, put_new, put_segment, put_segments}
use orthos_i_dart_tpx.Shard.Engine.Store.{
  Ready, Holds-append, IsStored-append, IsStored-insert, IsStored-recounted, Wrote, WroteAll,
  IsSegment, slice, ref_of, new_chunk-Holds,
}

module _ {Art : Type 0} (platform : Platform Art) (Known : List ℕ → Type 0) where
  module _ (v : IsPlatform platform) where
    put_new_lem :
        (s_id : ℕ) (dtype : DTypeId) (block : List ℕ) (e : Engine Art)
        → Known block
        → length block < 2 ^ 30
        → Ready platform Known e
        → Wrote platform Known e block
            (put_new platform s_id dtype (platform.xxh3_128 block) block e)
    unfolding put_new
    put_new_lem s_id dtype block e known small ready =
        let chunk = chunk_of platform block e.header.chunk_align in
        let size : length chunk % 2 ^ 32 ≡ length chunk =
          ground
            (arith, length-chunk_of platform block e.header.chunk_align v, ready.align_small) in
        let done = append_bytes_lem chunk e.io ready.writable ready.io_ok in
        let entry : ContentEntry = record {
          shard_id = s_id;
          chunk_offset = length (contents e.io);
          chunk_len = length chunk;
          refcount = 1;
        } in
        let held =
          new_chunk-Holds platform Known (contents e.io) block (ref_of entry) e.header.chunk_align v
            small refl refl in
        rw (put_new, make_chunk_lem platform block dtype e.header.chunk_align, done.replied, size)
          record {
            chunk_ref = ref_of entry;
            replied = refl;
            ready = record {
              io_ok = done.valid;
              writable = rw done.same_mode ready.writable;
              align_small = ready.align_small;
              stored = rw done.bytes (
                  IsStored-insert platform Known (contents e.io ++ chunk) (platform.xxh3_128 block)
                    entry e.content_store
                    (IsStored-append platform Known (contents e.io) chunk e.content_store
                      ready.stored)
                    record { block = block; known = known; hashed = refl; held = held });
            };
            held = rw done.bytes held;
            more = chunk;
            grown = done.bytes;
            same_toc = refl;
            same_mode = refl;
            same_shards = refl;
          }

    put_hit :
        (s_id : ℕ) (dtype : DTypeId) (bytes : List ℕ) (seg : CdcSegment) (e : Engine Art)
        (existing : ContentEntry)
        → ((a b : List ℕ) → Known a → Known b → platform.xxh3_128 a ≡ platform.xxh3_128 b → a ≡ b)
        → IsSegment platform Known bytes seg
        → Ready platform Known e
        → ContentStore.lookup e.content_store seg.content_hash ≡ some existing
        → Wrote platform Known e (slice bytes seg) (put_segment platform s_id dtype bytes seg e)
    unfolding put_segment
    put_hit s_id dtype bytes seg e existing apart is_seg ready found =
        let old = ready.stored seg.content_hash existing found in
        let same : old.block ≡ slice bytes seg =
          apart old.block (slice bytes seg) old.known is_seg.known (old.hashed ∙ is_seg.hashed) in
        rw (put_segment, found)
          record {
            chunk_ref = ref_of existing;
            replied = refl;
            ready = record {
              io_ok = ready.io_ok;
              writable = ready.writable;
              align_small = ready.align_small;
              stored =
                  IsStored-recounted platform Known (contents e.io) seg.content_hash e.content_store
                    _ bump (λ b. refl) (lookup-add_ref e.content_store seg.content_hash)
                    ready.stored;
            };
            held = rw (sym same) old.held;
            more = [];
            grown = sym (append-nil _);
            same_toc = refl;
            same_mode = refl;
            same_shards = refl;
          }

    put_segment_lem :
        (s_id : ℕ) (dtype : DTypeId) (bytes : List ℕ) (seg : CdcSegment) (e : Engine Art)
        → ((a b : List ℕ) → Known a → Known b → platform.xxh3_128 a ≡ platform.xxh3_128 b → a ≡ b)
        → IsSegment platform Known bytes seg
        → Ready platform Known e
        → Wrote platform Known e (slice bytes seg) (put_segment platform s_id dtype bytes seg e)
    unfolding put_segment
    put_segment_lem s_id dtype bytes seg e apart is_seg ready =
        elim (Option-cases (ContentStore.lookup e.content_store seg.content_hash)) [
          | inl absent ↦
              rw (put_segment, absent, is_seg.hashed)
                (put_new_lem s_id dtype (slice bytes seg) e is_seg.known is_seg.small ready)
          | inr (existing, found) ↦ put_hit s_id dtype bytes seg e existing apart is_seg ready found
        ]

    pub put_segments_lem :
        (s_id : ℕ) (dtype : DTypeId) (bytes : List ℕ) (segs : List CdcSegment) (e : Engine Art)
        → ((a b : List ℕ) → Known a → Known b → platform.xxh3_128 a ≡ platform.xxh3_128 b → a ≡ b)
        → All (IsSegment platform Known bytes) segs
        → Ready platform Known e
        → WroteAll platform Known e
            (Tiling.contents bytes segs)
            (put_segments platform s_id dtype bytes segs e)
    unfolding put_segments
    put_segments_lem s_id dtype bytes [] e apart all ready = record {
      chunk_refs = [];
      replied = refl;
      ready = ready;
      held = refl;
      more = [];
      grown = sym (append-nil _);
      same_toc = refl;
      same_mode = refl;
      same_shards = refl;
    }
    put_segments_lem s_id dtype bytes (seg ∷ segs) e apart all ready =
        let one = put_segment_lem s_id dtype bytes seg e apart all.0 ready in
        let first = put_segment platform s_id dtype bytes seg e in
        let rest = put_segments_lem s_id dtype bytes segs (first.0) apart all.1 one.ready in
        rw (put_segments, one.replied, rest.replied)
          record {
            chunk_refs = one.chunk_ref ∷ rest.chunk_refs;
            replied = refl;
            ready = rest.ready;
            held = (
              slice bytes seg,
              Tiling.contents bytes segs,
              rw rest.grown (
                  Holds-append platform Known (contents first.0.io) rest.more one.chunk_ref _
                    one.held),
              rest.held,
              refl,
            );
            more = one.more ++ rest.more;
            grown =
                rest.grown ∙ rw (one.grown, append_assoc (contents e.io) one.more rest.more) refl;
            same_toc = rest.same_toc ∙ one.same_toc;
            same_mode = rest.same_mode ∙ one.same_mode;
            same_shards = rest.same_shards ∙ one.same_shards;
          }

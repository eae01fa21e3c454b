-- ===== src/Shard/Engine/PutGet.antt =====
-- What `get` finds after `put`.
use orthos_i_dart_tpx.Base.{
  ℕ, ◌+◌, ◌≡◌, ◌∙◌, refl, arith, sym, List, [], ◌∷◌, ◌++◌, append-nil, drop, length-take, All, Bool,
  false, ◌==◌, Bool-cases, Option-cases, inl, inr, Option, some, none, bytes_eq,
}
use orthos_i_dart_tpx.Core.Error.{Result, ok}
use orthos_i_dart_tpx.Core.Types.{ChunkRef}
use orthos_i_dart_tpx.Core.DType.{DTypeId}
use orthos_i_dart_tpx.Io.{Backend, read_at}
use orthos_i_dart_tpx.Io.Contents.{contents, IsBackend, Does, read_at_lem}
use orthos_i_dart_tpx.Dedup.ContentStore.{ContentStore}
use orthos_i_dart_tpx.Dedup.ContentStore.Counts.{lookup-release, drop_one}
use orthos_i_dart_tpx.Dedup.Cdc.{CdcSegment, default_config}
use orthos_i_dart_tpx.Dedup.Cdc.Tiling as Tiling
use orthos_i_dart_tpx.Index.Toc.{TocEntry}
use orthos_i_dart_tpx.Index.Toc.Lookup.{
  IsToc, Apart, latest, live, lookup_lem, none_ne_some, some_eq,
}
use orthos_i_dart_tpx.Shard.{Platform}
use orthos_i_dart_tpx.Shard.Checkpoint.{Checkpointed, should_checkpoint}
use orthos_i_dart_tpx.Shard.Checkpoint.Writes.{footer_of, block_of, execute_checkpoint_lem}
use orthos_i_dart_tpx.Shard.Chunks.RoundTrip.{IsPlatform}
use orthos_i_dart_tpx.Shard.Engine.{
  Engine, checkpoint_if_due, checkpoint, checkpoint_as, release_all,
}
use orthos_i_dart_tpx.Shard.Engine.Read.{read_chunks, read_tensor_from_entry, find_entry, get}
use orthos_i_dart_tpx.Shard.Engine.Store.{
  Ready, HoldsAll, Holds-append, IsStored, IsStored-append, IsStored-recounted, IsSegment, slice,
}

module _ {Art : Type 0} (platform : Platform Art) (Known : List ℕ → Type 0) where
  pub HoldsAll-append :
      (bytes more : List ℕ) (refs : List ChunkRef) (found : List ℕ)
      → HoldsAll platform Known bytes refs found
      → HoldsAll platform Known (bytes ++ more) refs found
  HoldsAll-append bytes more [] found v = v
  HoldsAll-append bytes more (r ∷ refs) found (block, rest, held, others, joined) = (
    block,
    rest,
    Holds-append platform Known bytes more r block held,
    HoldsAll-append bytes more refs rest others,
    joined,
  )

  -- The data of every entry is in the archive.
  abbrev pub Readable : List ℕ → List TocEntry → Type 0
  Readable bytes = All (λ (entry : TocEntry).
      (found : List ℕ) × HoldsAll platform Known bytes entry.chunk_refs found)

  pub Readable-append :
      (bytes more : List ℕ) (entries : List TocEntry)
      → Readable bytes entries
      → Readable (bytes ++ more) entries
  Readable-append bytes more [] all = tt
  Readable-append bytes more (e ∷ entries) ((found, held), all) = (
    (found, HoldsAll-append bytes more e.chunk_refs found held),
    Readable-append bytes more entries all,
  )

  -- Reading the chunks gives the data that the references hold.
  pub read_chunks_lem :
      (dtype : DTypeId) (refs : List ChunkRef) (found : List ℕ) (io : Backend)
      → IsBackend io
      → HoldsAll platform Known (contents io) refs found
      → Does io (Result.ok found) (contents io) (read_chunks platform dtype refs io)
  unfolding read_chunks
  read_chunks_lem dtype [] found io v held = record {
    replied = rw held refl;
    bytes = refl;
    same_mode = refl;
    valid = v;
  }
  read_chunks_lem dtype (r ∷ refs) found io v (block, rest, held, others, joined) =
      let one = read_at_lem r.chunk_offset r.chunk_len io v in
      let io' = (read_at r.chunk_offset r.chunk_len io).0 in
      let more = read_chunks_lem dtype refs rest io' one.valid (rw one.bytes others) in
      rw (read_chunks, one.replied, held.opens dtype, more.replied, joined)
        record {
          replied = refl;
          bytes = more.bytes ∙ one.bytes;
          same_mode = more.same_mode ∙ one.same_mode;
          valid = more.valid;
        }

  pub IsStored-release_all :
      (bytes hashes : List ℕ) (store : ContentStore)
      → IsStored platform Known bytes store
      → IsStored platform Known bytes (release_all store hashes)
  unfolding release_all
  IsStored-release_all bytes [] store v = v
  IsStored-release_all bytes (h ∷ hashes) store v = IsStored-release_all bytes hashes _ (
      IsStored-recounted platform Known bytes h store _ drop_one (λ b. refl)
        (lookup-release store h) v)

  -- A call that leaves the engine ready, with the same table, over an archive that has at most grown.
  pub record Keeps {A : Type 0} (e : Engine Art) (reply : A) (r : Engine Art × A) : Type 0 where
    pub replied : r.1 ≡ reply
    pub ready : Ready platform Known r.0
    pub more : List ℕ
    pub grown : contents r.0.io ≡ contents e.io ++ more
    pub same_toc : r.0.master_toc ≡ e.master_toc
    pub same_mode : r.0.mode ≡ e.mode

  abbrev pub before_checkpoint : Engine Art → Checkpointed Art
  before_checkpoint e = record {
    coordinator = e.checkpoint_coordinator;
    shards = e.shards;
    io = e.io;
  }

  pub checkpoint_as_lem :
      (is_final : Bool) (now : ℕ) (e : Engine Art)
      → Ready platform Known e
      → Keeps e
          (Result.ok (footer_of platform.xxh64 (before_checkpoint e) e.master_toc is_final))
          (checkpoint_as platform is_final now e)
  unfolding checkpoint_as
  checkpoint_as_lem is_final now e ready =
      let s = before_checkpoint e in
      let done =
        execute_checkpoint_lem platform.xxh64 now s e.master_toc is_final ready.writable
          ready.io_ok in
      record {
        replied = done.replied;
        ready = record {
          io_ok = done.valid;
          writable = rw done.same_mode ready.writable;
          align_small = ready.align_small;
          stored =
              rw done.bytes
                (IsStored-append platform Known (contents e.io) _ e.content_store ready.stored);
        };
        more = block_of platform.xxh64 s e.master_toc is_final;
        grown = done.bytes;
        same_toc = refl;
        same_mode = refl;
      }

  pub checkpoint_if_due_lem :
      (now : ℕ) (e : Engine Art)
      → Ready platform Known e
      → Keeps e (Result.ok tt) (checkpoint_if_due platform now e)
  unfolding checkpoint_if_due checkpoint
  checkpoint_if_due_lem now e ready =
      elim (Bool-cases (should_checkpoint now e.checkpoint_coordinator)) [
        | inr early ↦ rw early record {
          replied = refl;
          ready = ready;
          more = [];
          grown = sym (append-nil _);
          same_toc = refl;
          same_mode = refl;
        }
        | inl due ↦
            let done = checkpoint_as_lem false now e ready in
            rw (due, checkpoint, done.replied)
              record {
                replied = refl;
                ready = done.ready;
                more = done.more;
                grown = done.grown;
                same_toc = done.same_toc;
                same_mode = done.same_mode;
              }
      ]

  module _ (v : IsPlatform platform)
      (apart : (a b : List ℕ)
        → Known a
        → Known b
        → platform.xxh3_128 a ≡ platform.xxh3_128 b
        → a ≡ b) where
    -- The segments of data whose contents are all in play.
    pub Tiles-IsSegment :
        (bytes : List ℕ) (start : ℕ) (segs : List CdcSegment)
        → Tiling.Tiles platform.xxh3_128 bytes default_config start segs
        → All (λ (seg : CdcSegment). Known (slice bytes seg)) segs
        → All (IsSegment platform Known bytes) segs
    Tiles-IsSegment bytes start [] t known = tt
    Tiles-IsSegment bytes start (seg ∷ segs) (at, some_bytes, large, hash, size, t) known = (
      record {
        hashed = rw at hash;
        small = omega (arith, large, length-take seg.len (drop seg.offset bytes));
        known = known.0;
      },
      Tiles-IsSegment bytes (start + seg.len) segs t known.1,
    )

    -- What `get` answers for an entry whose data is in the archive.
    pub get_found :
        (j : List ℕ) (e : Engine Art) (entry : TocEntry) (found : List ℕ)
        → find_entry platform e j ≡ some entry
        → IsBackend e.io
        → HoldsAll platform Known (contents e.io) entry.chunk_refs found
        → (get platform j e).1
          ≡ ok (some (record { dtype = entry.dtype_id; shape = entry.shape; bytes = found }))
    unfolding get read_tensor_from_entry
    get_found j e entry found there ok_io held =
        let done = read_chunks_lem entry.dtype_id entry.chunk_refs found e.io ok_io held in
        rw (get, there, done.replied) refl

    pub get_absent :
        (j : List ℕ) (e : Engine Art)
        → find_entry platform e j ≡ none
        → (get platform j e).1 ≡ ok none
    unfolding get
    get_absent j e nowhere = rw (get, nowhere) refl

    -- The engine as its operations keep it: it is ready, its table is in order, and the data of every
    -- entry is in the archive.
    pub record IsEngine (e : Engine Art) : Type 0 where
      pub ready : Ready platform Known e
      pub toc : IsToc (λ k. platform.xxh64 k 0) e.master_toc
      pub readable : Readable (contents e.io) e.master_toc.entries

    All-latest :
        (P : TocEntry → Type 0) (j : List ℕ) (entries : List TocEntry) (entry : TocEntry)
        → All P entries
        → latest j entries ≡ some entry
        → P entry
    unfolding latest
    All-latest P j [] entry all h = absurd (none_ne_some entry h)
    All-latest P j (first ∷ rest) entry all h = elim (Option-cases (latest j rest)) [
      | inl nowhere ↦ elim (Bool-cases (bytes_eq first.key j)) [
        | inl here ↦ rw (sym (some_eq first entry (rw (nowhere, here) at h))) all.0
        | inr there ↦ absurd (none_ne_some entry (rw (nowhere, there) at h))
      ]
      | inr (later, found) ↦ All-latest P j rest entry all.1 (found ∙ rw found at h)
    ]

    live-eq-some : (o : Option TocEntry) (entry : TocEntry) → live o ≡ some entry → o ≡ some entry
    live-eq-some none entry h = h
    live-eq-some (some a) entry h = elim (Bool-cases (a.tombstone == 0)) [
      | inl alive ↦ rw alive at h
      | inr dead ↦ absurd (none_ne_some entry (rw dead at h))
    ]

    -- A table that agrees on a key and an archive that has at most grown give the same answer.
    pub get_same :
        (j : List ℕ) (e e' : Engine Art) (more : List ℕ)
        → IsEngine e
        → Apart (λ k. platform.xxh64 k 0) j e.master_toc.entries
        → IsBackend e'.io
        → contents e'.io ≡ contents e.io ++ more
        → find_entry platform e' j ≡ find_entry platform e j
        → (get platform j e').1 ≡ (get platform j e).1
    unfolding find_entry
    get_same j e e' more is apart_j ok_io grown same =
        elim (Option-cases (find_entry platform e j)) [
          | inl nowhere ↦ get_absent j e' (same ∙ nowhere) ∙ sym (get_absent j e nowhere)
          | inr (entry, there) ↦
              let last : latest j e.master_toc.entries ≡ some entry =
                live-eq-some _ entry (sym (lookup_lem _ e.master_toc j is.toc apart_j) ∙ there) in
              let (found, held) = All-latest _ j e.master_toc.entries entry is.readable last in
              let held' = HoldsAll-append (contents e.io) more entry.chunk_refs found held in
              get_found j e' entry found (same ∙ there) ok_io (rw grown held')
              ∙ sym (get_found j e entry found there is.ready.io_ok held)
        ]

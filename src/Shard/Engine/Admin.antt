-- ===== src/Shard/Engine/Admin.antt =====
-- Creating, opening, compacting and closing an archive: `create`, `open`, `flush`, `compact` and
-- `close` of `ShardedEngine` (crates/tpx-shard/src/engine.rs).
use orthos_i_dart_tpx.Base.{
  ℕ, zero, suc, ◌+◌, ◌-◌, ◌*◌, ◌^◌, max, List, [], ◌∷◌, length, map, true, false, ltb, ◌==◌,
  if◌then◌else◌, Option, none, some,
}
use orthos_i_dart_tpx.Core.Error.{
  Result, ok, err, buffer_too_small, corrupt_archive, read_only_mode, ◌>>=◌,
}
use orthos_i_dart_tpx.Core.Types.{
  OpenMode, read_only, read_write, append, header_size, default_chunk_align, ChunkRef, OwnedTensor,
}
use orthos_i_dart_tpx.Core.Header as Header
use orthos_i_dart_tpx.Core.Header.{FileHeader}
use orthos_i_dart_tpx.Core.Footer.{scan_for_footer}
use orthos_i_dart_tpx.Core.Chunk.{pad_to_align}
use orthos_i_dart_tpx.Core.Attrs.{Attrs}
use orthos_i_dart_tpx.Io as Io
use orthos_i_dart_tpx.Io.{Backend, can_write, read_at, write_at, file_len, truncate, sync}
use orthos_i_dart_tpx.Index.Toc as Toc
use orthos_i_dart_tpx.Index.Toc.{Toc, TocEntry}
use orthos_i_dart_tpx.Index.Toc.Binary as Binary
use orthos_i_dart_tpx.Index.Toc.Binary.{set_all}
use orthos_i_dart_tpx.Version as Version
use orthos_i_dart_tpx.Shard.{
  Platform, Shard, new_shard, shard_for_key, get_chain, set_chain, remove_chain,
}
use orthos_i_dart_tpx.Shard.Checkpoint.{new_coordinator, store_offsets}
use orthos_i_dart_tpx.Shard.Engine.{Engine, update_shard, checkpoint_as, checkpoint, put}
use orthos_i_dart_tpx.Shard.Engine.Read.{get}

-- The header and the zeros up to the first chunk.
unfoldable pub header_block : FileHeader → List ℕ
header_block header = pad_to_align (Header.serialize header) header.chunk_align

-- A content hash of `open`: `(shard_id as u128) << 64 | chunk_offset as u128`.
unfoldable pub ref_hash : ChunkRef → ℕ
ref_hash r = r.shard_id * 2 ^ 64 + r.chunk_offset

-- The footer and the table of an archive, as `open` finds them: the offset of the footer, and
-- the table. `iterate` is the order of each map of attributes.
unfoldable pub load_toc : (ℕ → Attrs → Attrs) → FileHeader → Backend → Backend × Result (ℕ × Toc)
load_toc iterate header io =
    let len = file_len io in
    let (io1, whole) = read_at 0 len io in
    elim (whole >>= λ bytes. scan_for_footer bytes len header.chunk_align) [
      | err x ↦ (io1, err x)
      | ok none ↦ (io1, err (corrupt_archive "No valid footer found in TPX archive"))
      | ok (some (footer, footer_offset)) ↦
          let (io2, toc_bytes) =
            read_at footer.toc_offset (footer_offset - footer.toc_offset) io1 in
          (
            io2,
            toc_bytes >>= λ bytes.
                Binary.deserialize iterate bytes >>= λ toc. ok (footer_offset, toc),
          )
    ]

-- The length check and the read of the header.
unfoldable pub load_header : Backend → Backend × Result FileHeader
load_header io =
    let (io1, bytes) = read_at 0 header_size io in
    if ltb (file_len io) header_size
    then (io, err (buffer_too_small "FileHeader" header_size (file_len io)))
    else (io1, bytes >>= Header.deserialize)

module _ {Art : Type 0} (platform : Platform Art) where
  unfoldable pub new_shards : ℕ → ℕ → ℕ → List (Shard Art)
  new_shards zero id offset = []
  new_shards (suc n) id offset = new_shard platform id offset ∷ new_shards n (id + 1) offset

  -- `create` over the backend of the file that `detect_best_tier` opened.
  unfoldable pub create : ℕ → Option ℕ → Backend → Engine Art × Result (Unit {0})
  unfolding header_block new_shards
  create now shard_count io =
      let sc = max (elim shard_count [ none ↦ 4 | some n ↦ n ]) 1 in
      let header = Header.new sc default_chunk_align 0x02 in
      let (io', written) = write_at 0 (header_block header) io in
      (
        record {
          mode = read_write;
          shards = new_shards sc 0 (length (header_block header));
          io = io';
          header = header;
          master_toc = Toc.new_toc;
          content_store = [];
          checkpoint_coordinator = new_coordinator (64 * 1024 * 1024) 60000 now;
          is_closed = false;
        },
        written,
      )

  unfoldable pub insert_refs : List ℕ → List ChunkRef → Art → Art
  insert_refs key [] tree = tree
  insert_refs key (r ∷ refs) tree = insert_refs key refs (platform.art.insert_art key r tree)

  -- What `open` does with one entry of the table.
  unfoldable pub populate : ℕ → TocEntry → Shard Art → Shard Art
  unfolding ref_hash insert_refs
  populate now entry s =
      if entry.tombstone == 0
      then record s {
        art = insert_refs entry.key entry.chunk_refs s.art;
        version_chains =
            set_chain s.version_chains entry.key
              (Version.append now entry.dtype_id entry.shape entry.attrs
                (map ref_hash entry.chunk_refs)
                (elim (get_chain s.version_chains entry.key) [
                  | some c ↦ c
                  | none ↦ Version.new entry.key Version.keep_forever
                ])).0;
      }
      else record s {
        art = platform.art.remove_art entry.key s.art;
        version_chains = remove_chain s.version_chains entry.key;
      }

  unfoldable pub populate_all : ℕ → List TocEntry → List (Shard Art) → List (Shard Art)
  unfolding populate update_shard
  populate_all now [] shards = shards
  populate_all now (entry ∷ rest) shards =
      populate_all now rest (
        update_shard (shard_for_key platform entry.key (length shards)) (populate now entry) shards)

  -- Bytes behind the footer are cut off, unless the archive is only read.
  unfoldable pub cut_tail : OpenMode → ℕ → Backend → Backend
  cut_tail read_only clean io = io
  cut_tail read_write clean io = if ltb clean (file_len io) then truncate clean io else io
  cut_tail append clean io = if ltb clean (file_len io) then truncate clean io else io

  -- `open` over the backend of the file.
  unfoldable pub open_archive :
      (ℕ → Attrs → Attrs) → ℕ → OpenMode → Backend → Backend × Result (Engine Art)
  unfolding load_header load_toc cut_tail new_shards populate_all
  open_archive iterate now mode io =
      let (io1, head) = load_header io in
      elim head [
        | err x ↦ (io1, err x)
        | ok header ↦
            let (io2, loaded) = load_toc iterate header io1 in
            elim loaded [
              | err x ↦ (io2, err x)
              | ok (footer_offset, toc) ↦
                  let io3 = cut_tail mode (footer_offset + 24) io2 in
                  let sc = max header.shard_count 1 in
                  (
                    io3,
                    ok (record {
                      mode = mode;
                      shards = populate_all now toc.entries (new_shards sc 0 (file_len io));
                      io = io3;
                      header = header;
                      master_toc = toc;
                      content_store = [];
                      checkpoint_coordinator = new_coordinator (64 * 1024 * 1024) 60000 now;
                      is_closed = false;
                    }),
                  )
            ]
      ]

  unfoldable pub flush : ℕ → Engine Art → Engine Art × Result (Unit {0})
  unfolding checkpoint
  flush now e =
      let (e', footer) = checkpoint platform now e in
      elim footer [ err x ↦ (e', err x) | ok f ↦ (record e' { io = sync e'.io }, ok tt) ]

  -- What `compact` reads first: the latest tensor of the key of every live entry, with the entry's
  -- own attributes.
  unfoldable pub live_tensors :
      List TocEntry → Engine Art → Engine Art × Result (List (List ℕ × OwnedTensor × Attrs))
  unfolding get
  live_tensors [] e = (e, ok [])
  live_tensors (entry ∷ rest) e =
      let (e', tensor) = get platform entry.key e in
      let more = live_tensors rest e' in
      let passed = live_tensors rest e in
      if entry.tombstone == 0
      then elim tensor [
        | err x ↦ (e', err x)
        | ok none ↦ more
        | ok (some t) ↦ (more.0, more.1 >>= λ items. ok ((entry.key, t, entry.attrs) ∷ items))
      ]
      else passed

  -- Each map of attributes that is set up has an order of its own when `put` goes through it.
  unfoldable pub put_all :
      (ℕ → Attrs → Attrs)
      → ℕ
      → List (List ℕ × OwnedTensor × Attrs)
      → Engine Art
      → Engine Art × Result (Unit {0})
  unfolding put set_all
  put_all iterate now [] e = (e, ok tt)
  put_all iterate now ((key, tensor, attrs) ∷ items) e =
      let (e', done) =
        put platform now key tensor.bytes tensor.dtype tensor.shape
          (iterate (length items) (set_all [] attrs)) e in
      let more = put_all iterate now items e' in elim done [ err x ↦ (e', err x) | ok u ↦ more ]

  -- The archive cut down to its header, with an empty table. The content store is kept.
  unfoldable pub reset : Engine Art → Engine Art × Result (Unit {0})
  unfolding header_block store_offsets
  reset e =
      let block = header_block e.header in
      let (io', written) = write_at 0 block e.io in
      elim written [
        | err x ↦ (record e { io = io' }, err x)
        | ok u ↦ (
          record e {
            io = truncate (length block) io';
            shards = store_offsets (length block) e.shards;
            master_toc = Toc.new_toc;
          },
          ok tt,
        )
      ]

  unfoldable pub compact : (ℕ → Attrs → Attrs) → ℕ → Engine Art → Engine Art × Result (Unit {0})
  unfolding live_tensors put_all reset flush
  compact iterate now e = elim (can_write e.mode) [
    | false ↦ (e, err read_only_mode)
    | true ↦
        let (e1, found) = live_tensors e.master_toc.entries e in
        elim found [
          | err x ↦ (e1, err x)
          | ok items ↦
              let (e2, cleared) = reset e1 in
              elim cleared [
                | err x ↦ (e2, err x)
                | ok u ↦
                    let (e3, stored) = put_all iterate now items e2 in
                    elim stored [ err x ↦ (e3, err x) | ok u ↦ flush now e3 ]
              ]
        ]
  ]

  -- `close`, a second time without effect.
  unfoldable pub close : ℕ → Engine Art → Engine Art × Result (Unit {0})
  unfolding checkpoint_as
  close now e =
      let (e', footer) = checkpoint_as platform true now e in
      if e.is_closed then (e, ok tt) else elim (can_write e.mode) [
        | false ↦ (record e { io = Io.close e.io; is_closed = true }, ok tt)
        | true ↦ elim footer [
          | err x ↦ (e', err x)
          | ok f ↦ (record e' { io = Io.close e'.io; is_closed = true }, ok tt)
        ]
      ]

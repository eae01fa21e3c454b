-- ===== src/Shard/Engine/Examples.antt =====
-- The theorems on chunks, checkpoints and the engine at a concrete archive.
use orthos_i_dart_tpx.Base.{
  ℕ, ◌+◌, ◌-◌, ◌%◌, ◌^◌, ◌≤◌, ◌<◌, ◌≡◌, ◌∙◌, refl, arith, sym, List, [], ◌∷◌, ◌++◌, length,
  append-nil, ap, true, false, leb, if◌then◌else◌, bytes_eq, some, none,
}
use orthos_i_dart_tpx.Core.Error.{ok, err, io, unexpected_eof, ◌>>=◌}
use orthos_i_dart_tpx.Core.Types.{read_only, read_write}
use orthos_i_dart_tpx.Core.DType as DType
use orthos_i_dart_tpx.Core.Header as Header
use orthos_i_dart_tpx.Core.Cursor.{write_le}
use orthos_i_dart_tpx.Core.Chunk.{pad_to_align}
use orthos_i_dart_tpx.Core.Footer.Scan.{footer_at}
use orthos_i_dart_tpx.Io.{Backend, opened, read_span}
use orthos_i_dart_tpx.Io.Contents.{contents, opened-IsBackend}
use orthos_i_dart_tpx.Dedup.Cdc.{CdcSegment, cdc_chunk}
use orthos_i_dart_tpx.Dedup.ContentStore as ContentStore
use orthos_i_dart_tpx.Dedup.ContentStore.{ContentEntry}
use orthos_i_dart_tpx.Index.Toc.{TocEntry, build, new_toc}
use orthos_i_dart_tpx.Index.Toc.Updates.{build-IsToc}
use orthos_i_dart_tpx.Index.Toc.RoundTrip.{restored, SameEntries}
use orthos_i_dart_tpx.Index.Toc.Examples.{
  sample_entries, sample_entries-All, last_first, last_first-IsIteration,
}
use orthos_i_dart_tpx.Codec.Dispatch.{Compressors}
use orthos_i_dart_tpx.Shard.{Platform}
use orthos_i_dart_tpx.Shard.Checkpoint.{Checkpointed, new_coordinator, execute_checkpoint}
use orthos_i_dart_tpx.Shard.Checkpoint.Writes.{footer_of}
use orthos_i_dart_tpx.Shard.Chunks.{make_chunk, open_chunk}
use orthos_i_dart_tpx.Shard.Chunks.RoundTrip.{IsPlatform, open_chunk-make_chunk}
use orthos_i_dart_tpx.Shard.Recovery.{load_toc-execute_checkpoint}
use orthos_i_dart_tpx.Shard.Engine.{Engine, put_with_retention, put_segment, delete}
use orthos_i_dart_tpx.Shard.Engine.Batch.{BatchTensor}
use orthos_i_dart_tpx.Shard.Engine.Read.{get}
use orthos_i_dart_tpx.Shard.Engine.Admin.{create, load_toc, reset, header_block}
use orthos_i_dart_tpx.Shard.Engine.Store.{ref_of}
use orthos_i_dart_tpx.Shard.Engine.PutGet.{IsEngine}
use orthos_i_dart_tpx.Shard.Engine.Answers.{get-put, get-delete}
use orthos_i_dart_tpx.Shard.Engine.Quiet.{Untouched}
use orthos_i_dart_tpx.Shard.Engine.ReadOnly as ReadOnly
use orthos_i_dart_tpx.Shard.Engine.ReadOnly.{EngineOp, after_all, IsReadOnly, after_all-Untouched}
use orthos_i_dart_tpx.Shard.Engine.Created.{create-IsEngine}
use orthos_i_dart_tpx.Shard.Engine.Compaction.{put_segment-reset}

-- Compressors that copy, hashes and a checksum that count, and no tree.
abbrev copying : Compressors
copying = record {
  zstd_compress = λ level block. some block;
  zstd_decompress = λ len packed. some packed;
  lz4_compress = λ block. block;
  lz4_decompress = λ packed. some packed;
}

abbrev demo : Platform (Unit {0})
demo = record {
  xxh64 = λ bytes seed. (length bytes + seed) % 2 ^ 64;
  xxh3_128 = λ bytes. length bytes;
  crc32 = λ bytes. length bytes % 2 ^ 32;
  compressors = copying;
  high_entropy = λ bytes. false;
  art = record { new_art = tt; insert_art = λ key r tree. tree; remove_art = λ key tree. tree };
}

demo-IsPlatform : IsPlatform demo
demo-IsPlatform = record {
  lossless = record {
    zstd_back = λ level block low high. (block, refl, refl);
    lz4_back = λ block. refl;
  };
  lz4_bound = λ block. omega arith;
  crc_fits = λ bytes. omega arith;
  hash_fits = λ bytes seed. omega arith;
}

abbrev payload : List ℕ
payload = 1 ∷ 2 ∷ 3 ∷ []

-- The one content in play.
abbrev Known : List ℕ → Type 0
Known bytes = bytes ≡ payload

Known-apart : (a b : List ℕ) → Known a → Known b → demo.xxh3_128 a ≡ demo.xxh3_128 b → a ≡ b
Known-apart a b ka kb h = ka ∙ sym kb

abbrev empty_file : Backend
empty_file = opened [] read_write

abbrev fresh : Engine (Unit {0})
fresh = (create demo 0 none empty_file).0

open_chunk-make_chunk_example :
    (make_chunk demo payload DType.float32 4096 >>= open_chunk demo 4096 DType.int8) ≡ ok payload
open_chunk-make_chunk_example =
    open_chunk-make_chunk demo payload DType.float32 DType.int8 4096 4096 demo-IsPlatform
      (omega arith)

fresh-IsEngine : IsEngine demo Known demo-IsPlatform Known-apart fresh
fresh-IsEngine =
    (create-IsEngine demo Known demo-IsPlatform Known-apart 0 none empty_file (omega arith) refl
      (opened-IsBackend [] read_write)).1

get-put_example :
    ((put_with_retention demo 5 (97 ∷ []) payload DType.uint8 (3 ∷ []) [] [] fresh).1 ≡ ok tt)
    × IsEngine demo Known demo-IsPlatform Known-apart
        (put_with_retention demo 5 (97 ∷ []) payload DType.uint8 (3 ∷ []) [] [] fresh).0
    × ((get demo
          (97 ∷ [])
          (put_with_retention demo 5 (97 ∷ []) payload DType.uint8 (3 ∷ []) [] [] fresh).0).1
        ≡ (if bytes_eq (97 ∷ []) (97 ∷ [])
            then ok (some (record { dtype = DType.uint8; shape = 3 ∷ []; bytes = payload }))
            else (get demo (97 ∷ []) fresh).1))
unfolding cdc_chunk create new_toc
get-put_example =
    get-put demo Known demo-IsPlatform Known-apart 5 (97 ∷ []) payload DType.uint8 (3 ∷ []) [] []
      (97 ∷ []) fresh fresh-IsEngine refl (omega arith) (refl, tt) tt (λ h. refl)

-- The engine with a tensor of no elements in it.
abbrev empty_entry : TocEntry
empty_entry = record {
  key_hash = 1;
  key = 97 ∷ [];
  dtype_id = DType.uint8;
  shape = 0 ∷ [];
  attrs = [];
  chunk_refs = [];
  tombstone = 0;
}

abbrev stocked : Engine (Unit {0})
stocked = record fresh { master_toc = build (empty_entry ∷ []) }

stocked-IsEngine : IsEngine demo Known demo-IsPlatform Known-apart stocked
unfolding build
stocked-IsEngine = record {
  ready = record {
    io_ok = fresh-IsEngine.ready.io_ok;
    writable = fresh-IsEngine.ready.writable;
    align_small = fresh-IsEngine.ready.align_small;
    stored = fresh-IsEngine.ready.stored;
  };
  toc = build-IsToc (λ k. demo.xxh64 k 0) (empty_entry ∷ []) (omega arith) (refl, tt);
  readable = (([], refl), tt);
}

get-delete_example :
    ((delete demo (97 ∷ []) stocked).1 ≡ ok tt)
    × IsEngine demo Known demo-IsPlatform Known-apart (delete demo (97 ∷ []) stocked).0
    × ((get demo (97 ∷ []) (delete demo (97 ∷ []) stocked).0).1
        ≡ (if bytes_eq (97 ∷ []) (97 ∷ []) then ok none else (get demo (97 ∷ []) stocked).1))
unfolding create build
get-delete_example =
    get-delete demo Known demo-IsPlatform Known-apart (97 ∷ []) (97 ∷ []) stocked stocked-IsEngine
      refl ((λ h. refl), tt)

-- The same archive, opened to be read.
abbrev reader : Engine (Unit {0})
reader = record fresh { mode = read_only; io = opened (1 ∷ 2 ∷ []) read_only }

abbrev item : List ℕ → BatchTensor
item key = record { key = key; bytes = payload; dtype = DType.uint8; shape = 3 ∷ [] }

abbrev reader_ops : List EngineOp
reader_ops =
    ReadOnly.put 5 (97 ∷ []) payload DType.uint8 [] [] []
    ∷ ReadOnly.get (97 ∷ [])
    ∷ ReadOnly.put_batch 5 (item (97 ∷ []) ∷ [])
    ∷ ReadOnly.get_prefix []
    ∷ ReadOnly.get_batch ((97 ∷ []) ∷ (98 ∷ []) ∷ [])
    ∷ ReadOnly.compact last_first 6
    ∷ ReadOnly.flush 7
    ∷ ReadOnly.close_archive 8
    ∷ []

after_all-Untouched_example :
    Untouched reader (after_all demo reader_ops reader)
    × IsReadOnly demo (after_all demo reader_ops reader)
after_all-Untouched_example =
    after_all-Untouched demo reader_ops reader
      (record { engine_refuses = refl; quiet = record { refused = refl; drained = refl } })

-- A chunk of an earlier `put`, behind the header.
abbrev old_chunk : ContentEntry
old_chunk = record { shard_id = 0; chunk_offset = 4096; chunk_len = 4096; refcount = 1 }

abbrev before_compaction : Engine (Unit {0})
before_compaction = record fresh {
  io = empty_file;
  header = Header.new 1 16 0;
  content_store = (3, old_chunk) ∷ [];
}

abbrev whole_segment : CdcSegment
whole_segment = record { offset = 0; len = 3; content_hash = 3 }

old_chunk_found : ContentStore.lookup before_compaction.content_store 3 ≡ some old_chunk
unfolding ContentStore.lookup
old_chunk_found = refl

old_chunk_behind : length (header_block before_compaction.header) ≤ 4096
unfolding header_block Header.new Header.serialize write_le pad_to_align
old_chunk_behind = omega arith

put_segment-reset_example :
    ((reset demo before_compaction).1 ≡ ok tt)
    × ((put_segment demo 0 DType.uint8 payload whole_segment (reset demo before_compaction).0).1
        ≡ ok (ref_of old_chunk))
    × (read_span (contents (reset demo before_compaction).0.io) 4096 4096 ≡ err (io unexpected_eof))
put_segment-reset_example =
    put_segment-reset demo before_compaction 0 DType.uint8 payload whole_segment old_chunk refl
      (opened-IsBackend [] read_write) old_chunk_found old_chunk_behind (omega arith)

abbrev writing : Checkpointed (Unit {0})
writing = record { coordinator = new_coordinator 100 100 0; shards = []; io = empty_file }

abbrev after_checkpoint : List ℕ
after_checkpoint = (execute_checkpoint demo.xxh64 9 writing (build sample_entries) true).0.io.file

no_footer_behind :
    (o : ℕ) → length after_checkpoint < o + 24 → footer_at (after_checkpoint ++ []) o ≡ none
unfolding footer_at
no_footer_behind o behind =
    let whole : length (after_checkpoint ++ []) ≡ length after_checkpoint =
      ap length (append-nil after_checkpoint) in
    let past : leb (o + 24) (length (after_checkpoint ++ [])) ≡ false = ground (arith, whole) in
    rw past refl

load_toc-execute_checkpoint_example :
    ((execute_checkpoint demo.xxh64 9 writing (build sample_entries) true).1
      ≡ ok (footer_of demo.xxh64 writing (build sample_entries) true))
    × ((load_toc last_first (Header.new 1 4096 0) (opened (after_checkpoint ++ []) read_only)).1
        ≡ ok (length after_checkpoint - 24, build (restored last_first sample_entries)))
    × SameEntries (restored last_first sample_entries) sample_entries
unfolding build Header.new
load_toc-execute_checkpoint_example =
    load_toc-execute_checkpoint demo.xxh64 last_first 9 writing (build sample_entries) true
      (Header.new 1 4096 0) read_only [] 0 last_first-IsIteration refl
      (opened-IsBackend [] read_write) refl refl (omega arith) demo-IsPlatform.hash_fits
      sample_entries-All (omega arith) no_footer_behind

-- ===== src/Shard/Engine/Created.antt =====
-- A new archive is an engine in order.
use orthos_i_dart_tpx.Base.{
  ℕ, append-nil, ◌-◌, zero, suc, ◌+◌, ◌≤◌, ◌<◌, ◌≡◌, ◌∙◌, refl, arith, sym, ap, max, List, [], ◌∷◌,
  ◌++◌, length, append_assoc, drop, replicate, length-append, length-replicate, true, false, ltb,
  Option, none, some, inl, IsU16, All,
}
use orthos_i_dart_tpx.Core.Error.{ok}
use orthos_i_dart_tpx.Core.Chunk.{pad_to_align}
use orthos_i_dart_tpx.Core.Header as Header
use orthos_i_dart_tpx.Core.Header.{FileHeader, IsHeader}
use orthos_i_dart_tpx.Core.Header.Laws.{IsSupported, length-serialize, deserialize-serialize_header}
use orthos_i_dart_tpx.Io.{Backend, can_write, read_at, read_span, write_span, file_len}
use orthos_i_dart_tpx.Io.Contents.{
  contents, IsBackend, write_at_lem, read_at_lem, read_span_front, length-write_span,
}
use orthos_i_dart_tpx.Dedup.ContentStore as ContentStore
use orthos_i_dart_tpx.Dedup.ContentStore.{ContentEntry}
use orthos_i_dart_tpx.Index.Toc as Toc
use orthos_i_dart_tpx.Index.Toc.Updates.{new_toc-IsToc}
use orthos_i_dart_tpx.Index.Toc.Lookup.{none_ne_some}
use orthos_i_dart_tpx.Shard.{Platform, Shard, new_shard}
use orthos_i_dart_tpx.Shard.Chunks.RoundTrip.{IsPlatform}
use orthos_i_dart_tpx.Shard.Engine.Admin.{create, header_block, load_header, new_shards}
use orthos_i_dart_tpx.Shard.Engine.Store.{read_span_end}
use orthos_i_dart_tpx.Shard.Engine.PutGet.{IsEngine}

-- The number of shards of an archive that is asked for with `shard_count`.
abbrev pub count_of : Option ℕ → ℕ
count_of none = 4
count_of (some n) = max n 1

count_of-asked :
    (shard_count : Option ℕ)
    → max (elim shard_count [ none ↦ 4 | some n ↦ n ]) 1 ≡ count_of shard_count
count_of-asked none = refl
count_of-asked (some n) = refl

abbrev pub first_header : Option ℕ → FileHeader
first_header shard_count = Header.new (count_of shard_count) 4096 2

-- The start of a file with bytes written over it.
read_span_start :
    (file block behind : List ℕ)
    → 0 < length block
    → read_span (write_span file 0 (block ++ behind)) 0 (length block) ≡ ok block
unfolding write_span
read_span_start file [] behind h = absurd (omega arith)
read_span_start file (b ∷ block) behind h =
    let no_gap : 0 - length file ≡ 0 = omega arith in
    rw (no_gap, append_assoc (b ∷ block) behind (drop (0 + length ((b ∷ block) ++ behind)) file))
      (sym (
          read_span_front 0 (length (b ∷ block)) (b ∷ block)
            (behind ++ drop (0 + length ((b ∷ block) ++ behind)) file) (omega arith))
        ∙ read_span_end [] (b ∷ block))

count_of-le : (shard_count : Option ℕ) → 1 ≤ count_of shard_count
count_of-le none = omega arith
count_of-le (some n) = omega arith

first_header-IsHeader :
    (shard_count : Option ℕ) → IsU16 (count_of shard_count) → IsHeader (first_header shard_count)
unfolding Header.new
first_header-IsHeader shard_count h = record {
  magic_len = refl;
  magic_bytes = (omega arith, (omega arith, (omega arith, (omega arith, tt))));
  version_fits = omega arith;
  flags_fit = omega arith;
  align_fits = omega arith;
  block_fits = omega arith;
  count_fits = omega (arith, count_of-le shard_count);
  reserved_fits = omega arith;
  offset_fits = omega arith;
  len_fits = omega arith;
  table_fits = omega arith;
  reserved2_fits = omega arith;
}

first_header-IsSupported : (shard_count : Option ℕ) → IsSupported (first_header shard_count)
unfolding Header.new
first_header-IsSupported shard_count = record { tpx_magic = refl; major_le_one = omega arith }

length-first_header :
    (shard_count : Option ℕ) → length (Header.serialize (first_header shard_count)) ≡ 48
length-first_header shard_count = length-serialize _ (unfold Header.new in refl)

pad_to_align-48 :
    (bytes : List ℕ) (align : ℕ)
    → length bytes ≡ 48
    → align ≡ 4096
    → pad_to_align bytes align ≡ bytes ++ replicate 4048 0
unfolding pad_to_align
pad_to_align-48 bytes align size at = rw (at, size) refl

-- The first 4096 bytes of a new archive.
abbrev pub first_block : Option ℕ → List ℕ
first_block shard_count = Header.serialize (first_header shard_count) ++ replicate 4048 0

header_block-first_header :
    (shard_count : Option ℕ) → header_block (first_header shard_count) ≡ first_block shard_count
unfolding header_block
header_block-first_header shard_count =
    pad_to_align-48 _ _ (length-first_header shard_count) (unfold Header.new in refl)

length-first_block : (shard_count : Option ℕ) → length (first_block shard_count) ≡ 4096
length-first_block shard_count = omega (
  arith,
  length-append (Header.serialize (first_header shard_count)) (replicate {A = ℕ} 4048 0),
  length-first_header shard_count,
  length-replicate {A = ℕ} 4048 0,
)

-- `load_header` of a backend that begins with the block.
load_header-first_block :
    (shard_count : Option ℕ) (file : List ℕ) (io : Backend)
    → IsU16 (count_of shard_count)
    → IsBackend io
    → contents io ≡ write_span file 0 (first_block shard_count)
    → (load_header io).1 ≡ ok (first_header shard_count)
unfolding load_header file_len
load_header-first_block shard_count file io fits v bytes =
    let h = first_header shard_count in
    let block = Header.serialize h in
    let size : length block ≡ 48 = length-first_header shard_count in
    let long : ltb (file_len io) 48 ≡ false = ground (
      arith,
      v.total,
      ap length bytes,
      length-first_block shard_count,
      length-write_span file 0 (first_block shard_count) (inl (omega arith)),
    ) in
    let start : (read_at 0 48 io).1 ≡ ok block =
      (read_at_lem 0 48 io v).replied
      ∙ ap (λ (t : List ℕ). read_span t 0 48) bytes
      ∙ rw size at (read_span_start file block (replicate 4048 0) (omega (arith, size))) in
    let back : Header.deserialize block ≡ ok h = rw append-nil at (
      deserialize-serialize_header h [] (first_header-IsHeader shard_count fits)
        (first_header-IsSupported shard_count)) in
    rw (load_header, long, start) back

-- A shard that hands out offsets from the end of the first block on.
abbrev pub IsBehind : {Art : Type 0} → Shard Art → Type 0
IsBehind s = s.append_offset ≡ 4096

module _ {Art : Type 0} (platform : Platform Art) (Known : List ℕ → Type 0)
    (v : IsPlatform platform)
    (apart : (a b : List ℕ)
      → Known a
      → Known b
      → platform.xxh3_128 a ≡ platform.xxh3_128 b
      → a ≡ b) where
  new_shards-All :
      (n id offset : ℕ)
      → offset ≡ 4096
      → All IsBehind (new_shards platform n id offset)
        × (length (new_shards platform n id offset) ≡ n)
  unfolding new_shards new_shard
  new_shards-All zero id offset h = (tt, refl)
  new_shards-All (suc n) id offset h =
      let (all, size) = new_shards-All n (id + 1) offset h in ((h, all), omega arith)

  pub create-IsEngine :
      (now : ℕ) (shard_count : Option ℕ) (io : Backend)
      → IsU16 (count_of shard_count)
      → can_write io.mode ≡ true
      → IsBackend io
      → let r = create platform now shard_count io in
        (r.1 ≡ ok tt)
        × IsEngine platform Known v apart r.0
        × (r.0.master_toc.entries ≡ [])
        × (contents r.0.io ≡ write_span (contents io) 0 (first_block shard_count))
        × ((load_header r.0.io).1 ≡ ok (first_header shard_count))
        × All IsBehind r.0.shards
        × (length r.0.shards ≡ count_of shard_count)
  unfolding create Toc.new_toc ContentStore.lookup
  create-IsEngine now shard_count io fits m ok_io =
      let count : max (elim shard_count [ none ↦ 4 | some n ↦ n ]) 1 ≡ count_of shard_count =
        count_of-asked shard_count in
      let block : header_block (create platform now shard_count io).0.header
          ≡ first_block shard_count =
        ap (λ n. header_block (Header.new n 4096 2)) count
        ∙ header_block-first_header shard_count in
      let done =
        write_at_lem 0 (header_block (create platform now shard_count io).0.header) io m
          (inl (omega arith)) ok_io in
      let bytes = done.bytes ∙ ap (write_span (contents io) 0) block in
      let shards =
        new_shards-All (max (elim shard_count [ none ↦ 4 | some n ↦ n ]) 1) 0
          (length (header_block (create platform now shard_count io).0.header))
          (ap length block ∙ length-first_block shard_count) in
      (
        done.replied,
        record {
          ready = record {
            io_ok = done.valid;
            writable = rw done.same_mode m;
            align_small = unfold Header.new in omega arith;
            stored = λ h entry found. absurd (none_ne_some entry found);
          };
          toc = new_toc-IsToc (λ k. platform.xxh64 k 0);
          readable = tt;
        },
        refl,
        bytes,
        load_header-first_block shard_count (contents io) _ fits done.valid bytes,
        shards.0,
        shards.1 ∙ count,
      )

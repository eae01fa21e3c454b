-- ===== src/Shard/Recovery.antt =====
-- Opening an archive after a checkpoint: `load_toc` finds what `execute_checkpoint` wrote.
use orthos_i_dart_tpx.Base.{
  ℕ, ◌+◌, ◌-◌, ◌*◌, ◌/◌, ◌%◌, ◌^◌, ◌≤◌, ◌<◌, ◌≡◌, ◌∙◌, refl, arith, ap, sym, List, [], ◌∷◌, ◌++◌,
  length, length-append, length-replicate, append_assoc, append-nil, replicate, max, All, Bool,
  true, false, inl, inr, none, IsU32,
}
use orthos_i_dart_tpx.Core.Error.{ok}
use orthos_i_dart_tpx.Core.Types.{OpenMode}
use orthos_i_dart_tpx.Core.Cursor.{length-write_le, write_le}
use orthos_i_dart_tpx.Core.Attrs.{Attrs}
use orthos_i_dart_tpx.Core.Header.{FileHeader}
use orthos_i_dart_tpx.Core.Footer as Footer
use orthos_i_dart_tpx.Core.Footer.{Footer, IsFooter, scan_for_footer}
use orthos_i_dart_tpx.Core.Footer.Scan.{footer_at}
use orthos_i_dart_tpx.Core.Footer.Recovery.{scan_recovers}
use orthos_i_dart_tpx.Io.{opened, can_write, read_at, read_span, file_len}
use orthos_i_dart_tpx.Io.Contents.{
  contents, IsBackend, opened-IsBackend, read_at_lem, read_span_front,
}
use orthos_i_dart_tpx.Index.Toc.{Toc, build}
use orthos_i_dart_tpx.Index.Toc.Binary as Binary
use orthos_i_dart_tpx.Index.Toc.RoundTrip.{
  IsTocEntry, IsIteration, restored, SameEntries, deserialize_toc-serialize,
}
use orthos_i_dart_tpx.Shard.{Shard}
use orthos_i_dart_tpx.Shard.Checkpoint.{
  Checkpointed, execute_checkpoint, checkpoint_footer, checkpoint_block, total_chunks, pad_len,
}
use orthos_i_dart_tpx.Shard.Checkpoint.Writes.{footer_of, execute_checkpoint_lem}
use orthos_i_dart_tpx.Shard.Engine.Admin.{load_toc}
use orthos_i_dart_tpx.Shard.Engine.Store.{read_span_end}

total_chunks-lt : {Art : Type 0} (shards : List (Shard Art)) → IsU32 (total_chunks shards)
unfolding total_chunks
total_chunks-lt [] = omega arith
total_chunks-lt (s ∷ shards) = omega arith

read_span_middle :
    (front bytes behind : List ℕ)
    → read_span (front ++ (bytes ++ behind)) (length front) (length bytes) ≡ ok bytes
read_span_middle front bytes behind =
    let inside : length front + length bytes ≤ length (front ++ bytes) =
      omega (arith, length-append front bytes) in
    rw
      (
        sym (append_assoc front bytes behind),
        sym (read_span_front (length front) (length bytes) (front ++ bytes) behind inside),
      )
      (read_span_end front bytes)

-- Reading a file that was just opened.
read_opened :
    (file : List ℕ) (mode : OpenMode) (offset len : ℕ)
    → ((read_at offset len (opened file mode)).1 ≡ read_span file offset len)
      × (contents (read_at offset len (opened file mode)).0 ≡ file)
      × IsBackend (read_at offset len (opened file mode)).0
read_opened file mode offset len =
    let done = read_at_lem offset len (opened file mode) (opened-IsBackend file mode) in
    (
      done.replied ∙ ap (λ (t : List ℕ). read_span t offset len) (append-nil file),
      done.bytes ∙ append-nil file,
      done.valid,
    )

length-footer : (f : Footer) → length f.magic_end ≡ 4 → length (Footer.serialize f) ≡ 24
unfolding Footer.serialize
length-footer f h = omega (
  arith,
  h,
  length-append (write_le 8 f.toc_offset)
      (write_le 4 f.total_chunks ++ (write_le 8 f.checksum ++ f.magic_end)),
  length-append (write_le 4 f.total_chunks) (write_le 8 f.checksum ++ f.magic_end),
  length-append (write_le 8 f.checksum) f.magic_end,
  length-write_le 8 f.toc_offset,
  length-write_le 4 f.total_chunks,
  length-write_le 8 f.checksum,
)

pad_len_lem : (n : ℕ) → (n + pad_len n) % 4096 ≡ 0
unfolding pad_len
pad_len_lem n = ground arith

load_toc_lem :
    (iterate : ℕ → Attrs → Attrs) (header : FileHeader) (mode : OpenMode)
    (front toc_bytes tail : List ℕ) (f : Footer) (t : Toc) (blocks : ℕ)
    → IsFooter f
    → f.toc_offset ≡ length front
    → 0 < length toc_bytes
    → length (front ++ toc_bytes) + 24 ≡ blocks * max header.chunk_align 512
    → ((o : ℕ)
        → length (front ++ toc_bytes) < o
        → footer_at ((front ++ toc_bytes) ++ (Footer.serialize f ++ tail)) o ≡ none)
    → Binary.deserialize iterate toc_bytes ≡ ok t
    → (load_toc iterate header
        (opened ((front ++ toc_bytes) ++ (Footer.serialize f ++ tail)) mode)).1
      ≡ ok (length (front ++ toc_bytes), t)
unfolding load_toc file_len
load_toc_lem iterate header mode front toc_bytes tail f t blocks v at some_bytes aligned clean
      back =
    let file = (front ++ toc_bytes) ++ (Footer.serialize f ++ tail) in
    let len = length file in
    let size = length-append front toc_bytes in
    let (whole, same, valid) = read_opened file mode 0 len in
    let all : (read_at 0 len (opened file mode)).1 ≡ ok file = whole ∙ read_span_end [] file in
    let io1 = (read_at 0 len (opened file mode)).0 in
    let scan =
      scan_recovers (front ++ toc_bytes) f tail header.chunk_align blocks v (omega arith) aligned
        clean in
    let toc_len : length (front ++ toc_bytes) - f.toc_offset ≡ length toc_bytes = omega arith in
    let second = read_at_lem f.toc_offset (length toc_bytes) io1 valid in
    let middle : (read_at f.toc_offset (length toc_bytes) io1).1 ≡ ok toc_bytes =
      second.replied
      ∙ ap (λ (t : List ℕ). read_span t f.toc_offset (length toc_bytes))
          (same ∙ append_assoc front toc_bytes (Footer.serialize f ++ tail))
      ∙ ap
          (λ n.
            read_span (front ++ (toc_bytes ++ (Footer.serialize f ++ tail))) n (length toc_bytes))
          at
      ∙ read_span_middle front toc_bytes (Footer.serialize f ++ tail) in
    rw (load_toc, all, scan, toc_len, middle, back) refl

toc_nonempty : (t : Toc) → 0 < length (Binary.serialize t)
unfolding Binary.serialize
toc_nonempty t = omega (
  arith,
  length-append (write_le 4 (length t.entries)) (Binary.write_entries t.entries),
  length-write_le 4 (length t.entries),
)

module _ {Art : Type 0} (xxh64 : List ℕ → ℕ → ℕ) where
  footer_of-IsFooter :
      (s : Checkpointed Art) (toc : Toc) (is_final : Bool)
      → ((bytes : List ℕ) (seed : ℕ) → xxh64 bytes seed < 2 ^ 64)
      → file_len s.io < 2 ^ 64
      → IsFooter (footer_of xxh64 s toc is_final)
        × (length (footer_of xxh64 s toc is_final).magic_end ≡ 4)
  unfolding checkpoint_footer Footer.new
  footer_of-IsFooter s toc true fits room = (
    record {
      offset_fits = room;
      chunks_fit = total_chunks-lt s.shards;
      checksum_fits = fits _ _;
      magic_known = inl refl;
    },
    refl,
  )
  footer_of-IsFooter s toc false fits room = (
    record {
      offset_fits = room;
      chunks_fit = total_chunks-lt s.shards;
      checksum_fits = fits _ _;
      magic_known = inr refl;
    },
    refl,
  )

  -- In an archive whose length is a multiple of 4096, and with an alignment of 4096 in its header: a
  -- checkpoint, final or not, succeeds, and from the file that it leaves, opened again with any bytes
  -- behind the checkpoint in which the scan sees no footer, `load_toc` recovers the table of
  -- contents, with the same entries in the same order, each with the same attributes up to their
  -- order, and with the index built anew; this holds in whatever order the hash maps give the
  -- attributes. The table is one that the format can hold, and the hash and the offset fit 64 bits.
  pub load_toc-execute_checkpoint :
      (iterate : ℕ → Attrs → Attrs) (now : ℕ) (s : Checkpointed Art) (toc : Toc) (is_final : Bool)
      (header : FileHeader) (mode : OpenMode) (tail : List ℕ) (blocks : ℕ)
      → IsIteration iterate
      → can_write s.io.mode ≡ true
      → IsBackend s.io
      → header.chunk_align ≡ 4096
      → length (contents s.io) ≡ blocks * 4096
      → length (contents s.io) < 2 ^ 64
      → ((bytes : List ℕ) (seed : ℕ) → xxh64 bytes seed < 2 ^ 64)
      → All IsTocEntry toc.entries
      → IsU32 (length toc.entries)
      → let r = execute_checkpoint xxh64 now s toc is_final in
        ((o : ℕ) → length r.0.io.file < o + 24 → footer_at (r.0.io.file ++ tail) o ≡ none)
        → (r.1 ≡ ok (footer_of xxh64 s toc is_final))
          × ((load_toc iterate header (opened (r.0.io.file ++ tail) mode)).1
              ≡ ok (length r.0.io.file - 24, build (restored iterate toc.entries)))
          × SameEntries (restored iterate toc.entries) toc.entries
  unfolding checkpoint_block file_len checkpoint_footer Footer.new
  load_toc-execute_checkpoint iterate now s toc is_final header mode tail blocks order m v align
        aligned room fits all count clean =
      let done = execute_checkpoint_lem xxh64 now s toc is_final m v in
      let total : file_len s.io ≡ length (contents s.io) = v.total in
      let (is_footer, magic) = footer_of-IsFooter s toc is_final fits (omega arith) in
      let f = footer_of xxh64 s toc is_final in
      let toc_bytes = Binary.serialize toc in
      let zeros : List ℕ = replicate (pad_len (length toc_bytes + length (Footer.serialize f))) 0 in
      let front = contents s.io in
      let file = (execute_checkpoint xxh64 now s toc is_final).0.io.file in
      let disk : file ≡ (front ++ (toc_bytes ++ zeros)) ++ Footer.serialize f =
        done.on_disk ∙ simp append_assoc refl in
      let whole : file ++ tail ≡ (front ++ (toc_bytes ++ zeros)) ++ (Footer.serialize f ++ tail) =
        rw disk (append_assoc (front ++ (toc_bytes ++ zeros)) (Footer.serialize f) tail) in
      let size : length (front ++ (toc_bytes ++ zeros))
          ≡ length front
            + (length toc_bytes + pad_len (length toc_bytes + length (Footer.serialize f))) =
        omega (
          arith,
          length-append front (toc_bytes ++ zeros),
          length-append toc_bytes zeros,
          length-replicate {A = ℕ} (pad_len (length toc_bytes + length (Footer.serialize f))) 0,
        ) in
      let file_size : length file ≡ length (front ++ (toc_bytes ++ zeros)) + 24 =
        ap length disk
        ∙ omega (
          arith,
          length-footer f magic,
          length-append (front ++ (toc_bytes ++ zeros)) (Footer.serialize f),
        ) in
      let in_blocks : length (front ++ (toc_bytes ++ zeros)) + 24
          ≡ (length (front ++ (toc_bytes ++ zeros)) + 24) / 4096 * max header.chunk_align 512 =
        ground (
          arith,
          align,
          size,
          length-footer f magic,
          aligned,
          pad_len_lem (length toc_bytes + length (Footer.serialize f)),
        ) in
      let back = deserialize_toc-serialize iterate toc zeros order all count in
      let before : length file - 24 ≡ length (front ++ (toc_bytes ++ zeros)) =
        omega (arith, file_size) in
      (
        done.replied,
        rw (before, whole)
            (load_toc_lem iterate header mode front (toc_bytes ++ zeros) tail f _ _ is_footer
              v.total (omega (arith, length-append toc_bytes zeros, toc_nonempty toc)) in_blocks
              (λ o behind. rw whole at clean o (omega (arith, file_size))) back.0),
        back.1,
      )

-- ===== src/Core/Footer.antt =====
-- crates/tpx-core/src/footer.rs: the 24-byte footer, and the backward scan for the latest one.
pub mod Laws
pub mod Scan
pub mod Recovery
use orthos_i_dart_tpx.Base.{
  ℕ, zero, suc, ◌+◌, ◌-◌, ◌*◌, ◌/◌, ◌<◌, ◌≡◌, ◌⊎◌, ◌++◌, min, max, List, length, Bool, true, false,
  ltb, leb, ◌==◌, ◌||◌, if◌then◌else◌, bytes_eq, take, drop, replicate, IsU32, IsU64, Option, none,
  some,
}
use orthos_i_dart_tpx.Core.Error.{
  Result, ok, err, invalid_end_magic, buffer_too_small, corrupt_archive,
}
use orthos_i_dart_tpx.Core.Error as Error
use orthos_i_dart_tpx.Core.Cursor.{Cursor, ◌>>=◌, pure, write_le, read_le, read_exact}
use orthos_i_dart_tpx.Core.Types.{magic_end_final, magic_end_checkpoint, footer_size}

pub record Footer : Type 0 where
  pub toc_offset : ℕ
  pub total_chunks : ℕ
  pub checksum : ℕ
  pub magic_end : List ℕ

-- `Footer::new`.
unfoldable pub new : ℕ → ℕ → ℕ → Bool → Footer
new toc_offset total_chunks checksum is_checkpoint = record {
  toc_offset = toc_offset;
  total_chunks = total_chunks;
  checksum = checksum;
  magic_end = if is_checkpoint then magic_end_checkpoint else magic_end_final;
}

unfoldable pub is_checkpoint : Footer → Bool
is_checkpoint f = bytes_eq f.magic_end magic_end_checkpoint

unfoldable pub is_final : Footer → Bool
is_final f = bytes_eq f.magic_end magic_end_final

unfoldable pub serialize : Footer → List ℕ
serialize f =
    write_le 8 f.toc_offset ++ (write_le 4 f.total_chunks ++ (write_le 8 f.checksum ++ f.magic_end))

-- The reads of `deserialize`, in order.
unfoldable pub read_fields : Cursor Footer
read_fields = do
  toc_offset ← read_le 8
  total_chunks ← read_le 4
  checksum ← read_le 8
  magic_end ← read_exact 4
  pure (record {
    toc_offset = toc_offset;
    total_chunks = total_chunks;
    checksum = checksum;
    magic_end = magic_end;
  })

check_end : Footer → Result Footer
check_end f =
    if bytes_eq f.magic_end magic_end_final || bytes_eq f.magic_end magic_end_checkpoint
    then ok f
    else err (invalid_end_magic f.magic_end)

-- The footer is the last 24 bytes of the buffer.
unfoldable pub deserialize : List ℕ → Result Footer
unfolding check_end
deserialize buf =
    if ltb (length buf) footer_size
    then err (buffer_too_small "Footer" footer_size (length buf))
    else Error.◌>>=◌ (read_fields (drop (length buf - footer_size) buf)) λ r. check_end r.0

-- `ReadAt::read_at` of a byte slice: the count of bytes read, and the caller's buffer after it.
unfoldable pub read_at : List ℕ → ℕ → List ℕ → ℕ × List ℕ
read_at bytes offset buf =
    if leb (length bytes) offset
    then (0, buf)
    else (let to_read = min (length bytes - offset) (length buf) in
        (to_read, take to_read (drop offset bytes) ++ drop to_read buf))

unfoldable pub accept : ℕ → Result Footer → Option Footer
accept offset (ok f) = if ltb f.toc_offset offset then some f else none
accept offset (err e) = none

-- One probe of the scan: a footer at `offset` whose table lies before it.
unfoldable pub probe : List ℕ → ℕ → List ℕ → Option Footer × List ℕ
unfolding accept read_at
probe bytes offset buf =
    let (count, buf') = read_at bytes offset buf in
    (if count == footer_size then accept offset (deserialize buf') else none, buf')

-- The `while` loop of `scan_for_footer`; `fuel` bounds its rounds. The error of a loop that needs
-- more rounds is one that the code has nowhere.
unfoldable pub scan_loop : ℕ → List ℕ → ℕ → ℕ → List ℕ → Result (Option (Footer × ℕ))
scan_loop zero bytes align current buf = err (corrupt_archive "out of fuel")
scan_loop (suc fuel) bytes align current buf = elim (leb footer_size current) [
  | false ↦ ok none
  | true ↦
      let p = probe bytes (current - footer_size) buf in
      elim (p.0) [
        | some f ↦ ok (some (f, current - footer_size))
        | none ↦ elim (leb current align) [
          | true ↦ ok none
          | false ↦ scan_loop fuel bytes align (current - align) p.1
        ]
      ]
]

unfoldable pub scan_for_footer : List ℕ → ℕ → ℕ → Result (Option (Footer × ℕ))
unfolding scan_loop
scan_for_footer bytes file_len chunk_align =
    if ltb file_len footer_size
    then ok none
    else (let eof_offset = file_len - footer_size in
        let p = probe bytes eof_offset (replicate footer_size 0) in
        let align = max chunk_align 512 in
        let blocks = file_len / align in
        elim (p.0) [
          | some f ↦ ok (some (f, eof_offset))
          | none ↦ scan_loop (suc blocks) bytes align (blocks * align) p.1
        ])

-- The fields fit their Rust types, and the end magic is one of the two.
pub record IsFooter (f : Footer) : Type 0 where
  pub offset_fits : IsU64 f.toc_offset
  pub chunks_fit : IsU32 f.total_chunks
  pub checksum_fits : IsU64 f.checksum
  pub magic_known : (f.magic_end ≡ magic_end_final) ⊎ (f.magic_end ≡ magic_end_checkpoint)

-- ===== src/Core/Footer/Scan.antt =====
-- The backward scan as a search through a list of offsets.
use orthos_i_dart_tpx.Base.{
  ℕ, zero, suc, ◌+◌, ◌-◌, ◌*◌, ◌/◌, ◌≤◌, ◌≡◌, ◌∙◌, min, max, List, [], ◌∷◌, length, refl, arith,
  take, drop, length-append, length-drop, length-take, length-eq-zero, append-nil, Bool-cases, inl,
  inr, ltb, leb, if◌then◌else◌, Option, none, some, replicate, false,
}
use orthos_i_dart_tpx.Core.Error.{ok}
use orthos_i_dart_tpx.Core.Types.{footer_size}
use orthos_i_dart_tpx.Core.Footer.{
  Footer, deserialize, accept, read_at, probe, scan_loop, scan_for_footer,
}

-- The footer that lies whole at `offset`, with its table before it.
unfoldable pub footer_at : List ℕ → ℕ → Option Footer
unfolding accept
footer_at bytes offset =
    if leb (offset + footer_size) (length bytes)
    then accept offset (deserialize (take footer_size (drop offset bytes)))
    else none

-- The first offset of a list that has a footer.
unfoldable pub find_footer : List ℕ → List ℕ → Option (Footer × ℕ)
find_footer bytes [] = none
find_footer bytes (o ∷ os) = elim (footer_at bytes o) [
  | some f ↦ some (f, o)
  | none ↦ find_footer bytes os
]

-- 24 bytes before each multiple of `align`, the last one first.
abbrev pub block_ends : ℕ → ℕ → List ℕ
block_ends zero align = []
block_ends (suc k) align = (suc k * align - footer_size) ∷ block_ends k align

abbrev pub candidates : ℕ → ℕ → List ℕ
candidates file_len align = (file_len - footer_size) ∷ block_ends (file_len / align) align

read_at-length :
    (bytes : List ℕ) (offset : ℕ) (buf : List ℕ) → length (read_at bytes offset buf).1 ≡ length buf
unfolding read_at
read_at-length bytes offset buf = ground (
  arith,
  length-append (take (min (length bytes - offset) (length buf)) (drop offset bytes))
      (drop (min (length bytes - offset) (length buf)) buf),
  length-take (min (length bytes - offset) (length buf)) (drop offset bytes),
  length-drop (min (length bytes - offset) (length buf)) buf,
  length-drop offset bytes,
)

probe-length :
    (bytes : List ℕ) (offset : ℕ) (buf : List ℕ) → length (probe bytes offset buf).1 ≡ length buf
unfolding probe
probe-length bytes offset buf = read_at-length bytes offset buf

probe-eq-footer_at :
    (bytes : List ℕ) (offset : ℕ) (buf : List ℕ)
    → length buf ≡ 24
    → (probe bytes offset buf).0 ≡ footer_at bytes offset
unfolding probe footer_at
probe-eq-footer_at bytes offset buf h = elim (Bool-cases (leb (offset + 24) (length bytes))) [
  | inl fits ↦
      let nothing_old : drop 24 buf ≡ [] = length-eq-zero _ (omega (arith, length-drop 24 buf)) in
      let whole : min (length bytes - offset) (length buf) ≡ 24 = ground arith in
      let inside : leb (length bytes) offset ≡ false = ground arith in
      rw (fits, inside, whole, nothing_old, append-nil) refl
  | inr past ↦ ground arith
]

minus_block : (k align : ℕ) → suc k * align - align ≡ k * align
minus_block k align = ground arith

scan_loop_lem :
    (k : ℕ) (bytes : List ℕ) (align : ℕ) (buf : List ℕ)
    → 512 ≤ align
    → length buf ≡ 24
    → scan_loop (suc k) bytes align (k * align) buf ≡ ok (find_footer bytes (block_ends k align))
unfolding scan_loop find_footer
scan_loop_lem zero bytes align buf a h = let e : 0 * align ≡ 0 = omega arith in rw e refl
scan_loop_lem (suc zero) bytes align buf a h =
    ground (arith, probe-eq-footer_at bytes (1 * align - 24) buf h)
scan_loop_lem (suc (suc k)) bytes align buf a h = ground (
  arith,
  probe-eq-footer_at bytes (suc (suc k) * align - 24) buf h,
  minus_block (suc k) align,
  scan_loop_lem (suc k) bytes align (probe bytes (suc (suc k) * align - 24) buf).1 a
      (probe-length bytes (suc (suc k) * align - 24) buf ∙ h),
)

-- The scan of any bytes is the search through the end of the file and then through the ends of
-- its blocks, the last block first; below 24 bytes there is nothing. The loop never
-- runs out of its fuel, which would be an error.
pub scan_for_footer_lem :
    (bytes : List ℕ) (file_len chunk_align : ℕ)
    → scan_for_footer bytes file_len chunk_align
      ≡ ok (
          if ltb file_len 24
          then none
          else find_footer bytes (candidates file_len (max chunk_align 512)))
unfolding scan_for_footer find_footer
scan_for_footer_lem bytes file_len chunk_align = elim (Bool-cases (ltb file_len 24)) [
  | inl short ↦ rw short
  | inr long ↦ ground (
    arith,
    probe-eq-footer_at bytes (file_len - 24) (replicate 24 0) refl,
    scan_loop_lem (file_len / max chunk_align 512) bytes (max chunk_align 512)
        (probe bytes (file_len - 24) (replicate 24 0)).1 (omega arith)
        (probe-length bytes (file_len - 24) (replicate 24 0)),
  )
]

-- ===== src/Core/Footer/Recovery.antt =====
-- What the scan finds in an archive that ends in a torn or foreign tail.
use orthos_i_dart_tpx.Base.{
  ℕ, zero, suc, ◌+◌, ◌-◌, ◌*◌, ◌/◌, ◌≤◌, ◌<◌, ◌≡◌, ◌++◌, ◌∙◌, max, List, length, refl, arith, ap,
  [], length-append, none, some, take-append_len, drop-append_len, take, drop,
}
use orthos_i_dart_tpx.Core.Error.{ok}
use orthos_i_dart_tpx.Core.Footer.{Footer, IsFooter, serialize, deserialize, scan_for_footer}
use orthos_i_dart_tpx.Core.Footer.Laws.{length-serialize, deserialize-append}
use orthos_i_dart_tpx.Core.Footer.Scan.{
  footer_at, find_footer, block_ends, candidates, scan_for_footer_lem,
}
use native.Mathlib.Nat.{add-mul-div_right}
use native.Mathlib.Decide.{dec_lt, ℕ_discrete}

block_le : (q k align : ℕ) → q < k → suc q * align + align ≤ suc k * align
block_le q k align h = grind arith

module _ (front : List ℕ) (f : Footer) (tail : List ℕ) where
  abbrev archive : List ℕ
  archive = front ++ (serialize f ++ tail)

  length-archive : IsFooter f → length archive ≡ length front + 24 + length tail
  length-archive v = omega (
    arith,
    length-append front (serialize f ++ tail),
    length-append (serialize f) tail,
    length-serialize f v,
  )

  slice : IsFooter f → take 24 (drop (length front) archive) ≡ serialize f
  slice v =
      ap (take 24) (drop-append_len (length front) front (serialize f ++ tail) refl)
      ∙ take-append_len 24 (serialize f) tail (length-serialize f v)

  pub footer_at-front :
      IsFooter f → f.toc_offset < length front → footer_at archive (length front) ≡ some f
  unfolding footer_at
  footer_at-front v before =
      ground (arith, length-archive v, ap deserialize (slice v), deserialize-append [] f v)

  module _ (align q : ℕ) (v : IsFooter f) (before : f.toc_offset < length front) (a : 512 ≤ align)
      (e : length front + 24 ≡ suc q * align)
      (clean : (o : ℕ) → length front < o → footer_at archive o ≡ none) where
    -- Blocks above the one that the footer closes hold none, and are passed over.
    find_below :
        (k : ℕ) → suc q ≤ k → find_footer archive (block_ends k align) ≡ some (f, length front)
    unfolding find_footer
    find_below zero h = absurd (omega arith)
    find_below (suc k) h = elim (dec_lt q k) [
      | yes above ↦
          let higher : suc q * align + align ≤ suc k * align = block_le q k align above in
          ground (arith, clean (suc k * align - 24) (omega arith), find_below k above)
      | no same ↦
          let eq : k ≡ q = omega arith in
          ground (arith, ap (λ (t : ℕ). suc t * align) eq, footer_at-front v before)
    ]

    find_first : find_footer archive (candidates (length archive) align) ≡ some (f, length front)
    unfolding find_footer
    find_first = elim (ℕ_discrete (length tail) 0) [
      | yes none_left ↦ ground (arith, length-archive v, footer_at-front v before)
      | no more ↦ ground (
        arith,
        clean (length archive - 24) (omega (arith, length-archive v)),
        find_below (length archive / align) enough,
      )
    ]
      where
        enough : suc q ≤ length archive / align
        enough = ground (
          arith,
          length-archive v,
          add-mul-div_right (length tail) (suc q) {z = align} (omega arith),
        )

-- A scan of an archive whose footer `f` ends at a multiple of the block size, and lies behind its
-- table, returns `f` and its offset whatever bytes follow, as long as no later offset holds a
-- footer. That includes the case that nothing follows.
pub scan_recovers :
    (front : List ℕ) (f : Footer) (tail : List ℕ) (chunk_align blocks : ℕ)
    → IsFooter f
    → f.toc_offset < length front
    → length front + 24 ≡ blocks * max chunk_align 512
    → ((o : ℕ) → length front < o → footer_at (front ++ (serialize f ++ tail)) o ≡ none)
    → scan_for_footer
        (front ++ (serialize f ++ tail))
        (length (front ++ (serialize f ++ tail)))
        chunk_align
      ≡ ok (some (f, length front))
scan_recovers front f tail chunk_align zero v before e clean = absurd (omega arith)
scan_recovers front f tail chunk_align (suc q) v before e clean =
    scan_for_footer_lem _ _ chunk_align
    ∙ ap ok (
        ground (
          arith,
          length-archive front f tail v,
          find_first front f tail (max chunk_align 512) q v before (omega arith) e clean,
        ))

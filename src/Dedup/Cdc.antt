-- ===== src/Dedup/Cdc.antt =====
-- crates/tpx-dedup/src/cdc.rs: cutting data where a rolling hash meets a mask. The content hash
-- `xxh3_128` is a third party's and a parameter.
pub mod Tiling
use orthos_i_dart_tpx.Base.{
  ℕ, zero, suc, ◌+◌, ◌-◌, ◌*◌, ◌%◌, ◌^◌, min, List, [], ◌∷◌, length, ltb, leb, ◌==◌, if◌then◌else◌,
  take, drop, get_or, bit_and, true, false,
}

-- The rounds of `generate_gear_table` that are left, and the last value.
gear_rounds : ℕ → ℕ → List ℕ
gear_rounds zero val = []
gear_rounds (suc n) val =
    let next = (val * 6364136223846793005 % 2 ^ 64 + 1442695040888963407) % 2 ^ 64 in
    next ∷ gear_rounds n next

unfoldable pub gear_table : List ℕ
unfolding gear_rounds
gear_table = gear_rounds 256 0x9E3779B97F4A7C15

pub record CdcSegment : Type 0 where
  pub offset : ℕ
  pub len : ℕ
  pub content_hash : ℕ

pub record CdcConfig : Type 0 where
  pub min_size : ℕ
  pub max_size : ℕ
  pub target_avg : ℕ
  pub boundary_mask : ℕ

-- `CdcConfig::default`.
abbrev pub default_config : CdcConfig
default_config = record {
  min_size = 32 * 1024;
  max_size = 512 * 1024;
  target_avg = 128 * 1024;
  boundary_mask = 0x0001_FFFF;
}

-- The `for` loop from `i` with `left` rounds to go, over the bytes from `i` on. The result is the
-- cut: behind the first byte at which the hash meets the mask, or the end of the range.
unfoldable pub find_cut : ℕ → ℕ → ℕ → ℕ → List ℕ → ℕ
find_cut mask zero i hash bytes = i
find_cut mask (suc left) i hash [] = i
find_cut mask (suc left) i hash (b ∷ bytes) =
    let next = (hash * 2 % 2 ^ 64 + get_or gear_table b 0) % 2 ^ 64 in
    let rest = find_cut mask left (i + 1) next bytes in
    if bit_and next mask == 0 then i + 1 else rest

-- Where the chunk that starts at `chunk_start` ends, if more than `min_size` bytes are left.
unfoldable pub cut_point : List ℕ → CdcConfig → ℕ → ℕ
cut_point bytes config chunk_start =
    let scan_start = chunk_start + config.min_size in
    let scan_end = chunk_start + min (length bytes - chunk_start) config.max_size in
    if ltb scan_start scan_end
    then find_cut config.boundary_mask (scan_end - scan_start) scan_start 0 (drop scan_start bytes)
    else scan_end

module _ (xxh3_128 : List ℕ → ℕ) where
  -- The `while` loop; `fuel` bounds its rounds.
  unfoldable pub chunk_loop : ℕ → List ℕ → CdcConfig → ℕ → List CdcSegment
  chunk_loop zero bytes config chunk_start = []
  chunk_loop (suc fuel) bytes config chunk_start = elim (ltb chunk_start (length bytes)) [
    | false ↦ []
    | true ↦
        let remaining = length bytes - chunk_start in
        elim (leb remaining config.min_size) [
          | true ↦
              record {
                offset = chunk_start;
                len = remaining;
                content_hash = xxh3_128 (take remaining (drop chunk_start bytes));
              }
              ∷ []
          | false ↦
              let cut = cut_point bytes config chunk_start in
              record {
                offset = chunk_start;
                len = cut - chunk_start;
                content_hash = xxh3_128 (take (cut - chunk_start) (drop chunk_start bytes));
              }
              ∷ chunk_loop fuel bytes config cut
        ]
  ]

  -- Each round advances by a byte at least if `max_size` is not 0, so `length` rounds are enough.
  unfoldable pub cdc_chunk : List ℕ → CdcConfig → List CdcSegment
  cdc_chunk bytes config =
      if length bytes == 0
      then []
      else (if leb (length bytes) config.min_size
          then record { offset = 0; len = length bytes; content_hash = xxh3_128 bytes } ∷ []
          else chunk_loop (length bytes) bytes config 0)

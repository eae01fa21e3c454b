-- ===== src/Dedup/Cdc/Tiling.antt =====
-- The segments tile the data, within the sizes of the configuration.
use orthos_i_dart_tpx.Base.{
  ℕ, zero, suc, ◌*◌, ◌%◌, ◌^◌, get_or, length-drop, ◌+◌, ◌-◌, ◌≤◌, ◌<◌, ◌≡◌, ◌⊎◌, min, refl, arith,
  List, [], ◌∷◌, ◌++◌, length, ltb, leb, ◌==◌, take, drop, ap, take_all, take-append-drop, drop_all,
  drop-drop, false, Bool-cases, inl, inr, sym,
}
use native.Mathlib.Decide.{ℕ_discrete}
use orthos_i_dart_tpx.Dedup.Cdc.{
  CdcSegment, CdcConfig, cut_point, find_cut, chunk_loop, cdc_chunk, gear_table,
}

find_cut_bounds :
    (mask left i hash : ℕ) (bytes : List ℕ)
    → 0 < left
    → left ≤ length bytes
    → (i < find_cut mask left i hash bytes) × (find_cut mask left i hash bytes ≤ i + left)
unfolding find_cut
find_cut_bounds mask zero i hash bytes h l = absurd (omega arith)
find_cut_bounds mask (suc left) i hash [] h l = absurd (omega arith)
find_cut_bounds mask (suc zero) i hash (b ∷ bytes) h l = ground arith
find_cut_bounds mask (suc (suc left)) i hash (b ∷ bytes) h l = ground (
  arith,
  find_cut_bounds mask (suc left) (i + 1) ((hash * 2 % 2 ^ 64 + get_or gear_table b 0) % 2 ^ 64)
      bytes (omega arith) (omega arith),
)

cut_point_bounds :
    (bytes : List ℕ) (config : CdcConfig) (start : ℕ)
    → config.min_size ≤ config.max_size
    → 0 < config.max_size
    → config.min_size < length bytes - start
    → let cut = cut_point bytes config start in
      (start < cut)
      × (start + config.min_size ≤ cut)
      × (cut ≤ start + config.max_size)
      × (cut ≤ length bytes)
unfolding cut_point
cut_point_bounds bytes config start le pos more = ground (
  arith,
  length-drop (start + config.min_size) bytes,
  find_cut_bounds config.boundary_mask
      (start + min (length bytes - start) config.max_size - (start + config.min_size))
      (start + config.min_size) 0 (drop (start + config.min_size) bytes),
)

module _ (xxh3_128 : List ℕ → ℕ) (bytes : List ℕ) (config : CdcConfig) where
  -- Segments from `start` to the end of the data: each is not empty, begins where the one before
  -- ends, has the hash of its bytes and is at most `max_size` long; all but the last have
  -- `min_size` bytes at least.
  abbrev pub Tiles : ℕ → List CdcSegment → Type 0
  Tiles start [] = start ≡ length bytes
  Tiles start (s ∷ rest) =
      (s.offset ≡ start)
      × (0 < s.len)
      × (s.len ≤ config.max_size)
      × (s.content_hash ≡ xxh3_128 (take s.len (drop start bytes)))
      × ((config.min_size ≤ s.len) ⊎ (rest ≡ []))
      × Tiles (start + s.len) rest

  module _ (le : config.min_size ≤ config.max_size) (pos : 0 < config.max_size) where
    chunk_loop-Tiles :
        (fuel start : ℕ)
        → start ≤ length bytes
        → length bytes - start ≤ fuel
        → Tiles start (chunk_loop xxh3_128 fuel bytes config start)
    unfolding chunk_loop
    chunk_loop-Tiles zero start h f = omega arith
    chunk_loop-Tiles (suc fuel) start h f = elim (Bool-cases (ltb start (length bytes))) [
      | inr done ↦ rw (done, chunk_loop) (ground arith)
      | inl more ↦ elim (Bool-cases (leb (length bytes - start) config.min_size)) [
        | inl last ↦
            rw (more, last, chunk_loop)
              (refl, ground arith, ground arith, refl, inr refl, ground arith)
        | inr big ↦
            let (b1, b2, b3, b4) = cut_point_bounds bytes config start le pos (ground arith) in
            let e : start + (cut_point bytes config start - start) ≡ cut_point bytes config start =
              omega arith in
            rw (more, big, chunk_loop)
              (
                refl,
                omega arith,
                omega arith,
                refl,
                inl (omega arith),
                rw e (chunk_loop-Tiles fuel (cut_point bytes config start) b4 (omega arith)),
              )
      ]
    ]

    -- If `min_size` is at most `max_size` and `max_size` is not 0, the segments of any data tile
    -- it from its first byte to its last.
    pub cdc_chunk-Tiles : Tiles 0 (cdc_chunk xxh3_128 bytes config)
    unfolding cdc_chunk
    cdc_chunk-Tiles = elim (ℕ_discrete (length bytes) 0) [
      | yes empty ↦ rw empty (sym empty)
      | no some_left ↦
          let full : (length bytes == 0) ≡ false = ground arith in
          elim (Bool-cases (leb (length bytes) config.min_size)) [
            | inl small ↦
                rw (full, small)
                  (
                    refl,
                    omega arith,
                    ground arith,
                    ap xxh3_128 (sym (take_all _ bytes (omega arith))),
                    inr refl,
                    omega arith,
                  )
            | inr big ↦
                rw (full, big) (chunk_loop-Tiles (length bytes) 0 (omega arith) (omega arith))
          ]
    ]

-- The bytes of the segments, in order, are the data.
abbrev pub contents : List ℕ → List CdcSegment → List ℕ
contents bytes [] = []
contents bytes (s ∷ rest) = take s.len (drop s.offset bytes) ++ contents bytes rest

Tiles-contents :
    (xxh3_128 : List ℕ → ℕ) (bytes : List ℕ) (config : CdcConfig) (start : ℕ) (ss : List CdcSegment)
    → Tiles xxh3_128 bytes config start ss
    → contents bytes ss ≡ drop start bytes
Tiles-contents xxh3_128 bytes config start [] t = rw t (sym (drop_all bytes))
Tiles-contents xxh3_128 bytes config start (s ∷ ss) (o, p, m, h, l, t) =
    rw (o, Tiles-contents xxh3_128 bytes config (start + s.len) ss t, ← drop-drop s.len start bytes)
      (take-append-drop s.len (drop start bytes))

-- Putting the segments' bytes together gives the data back, under the same conditions.
pub cdc_chunk-contents :
    (xxh3_128 : List ℕ → ℕ) (bytes : List ℕ) (config : CdcConfig)
    → config.min_size ≤ config.max_size
    → 0 < config.max_size
    → contents bytes (cdc_chunk xxh3_128 bytes config) ≡ bytes
cdc_chunk-contents xxh3_128 bytes config le pos =
    Tiles-contents xxh3_128 bytes config 0 _ (cdc_chunk-Tiles xxh3_128 bytes config le pos)

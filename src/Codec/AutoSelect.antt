-- ===== src/Codec/AutoSelect.antt =====
-- crates/tpx-codec/src/auto_select.rs: which codec and filter a segment gets. The floating-point
-- tests are parameters: `high_entropy` is `estimate_entropy(sample) > 7.6`, which rests on `log2`,
-- and `fast` is `target_mb_s_floor >= 200.0`.
use orthos_i_dart_tpx.Base.{
  ℕ, zero, suc, ◌+◌, ◌-◌, ◌*◌, ◌/◌, ◌%◌, ◌^◌, min, List, length, take, drop, Bool, ltb, leb, ◌==◌,
  ◌&&◌, ◌||◌, not, if◌then◌else◌, bit_xor,
}
use orthos_i_dart_tpx.Core.CodecId.{CodecId}
use orthos_i_dart_tpx.Core.FilterId.{FilterId}
use orthos_i_dart_tpx.Core.DType as DType
use orthos_i_dart_tpx.Core.DType.{DTypeId, element_size, dtype_eq}
use orthos_i_dart_tpx.Filter.DeltaZigzag.{from_le}

pub record CodecSelection : Type 0 where
  pub codec : CodecId
  pub filter : FilterId
  pub level : ℕ

abbrev pub plain : CodecSelection
plain = record { codec = CodecId.raw; filter = FilterId.no_filter; level = 0 }

abbrev pub quick : CodecSelection
quick = record { codec = CodecId.lz4; filter = FilterId.no_filter; level = 1 }

-- `CodecSelection::default`.
abbrev pub default_selection : CodecSelection
default_selection = record { codec = CodecId.zstd; filter = FilterId.byte_shuffle; level = 3 }

-- `leading_zeros` of a number of `bits` bits, by halving.
unfoldable pub leading_zeros : ℕ → ℕ → ℕ
leading_zeros zero n = 0
leading_zeros (suc bits) n =
    let fewer = leading_zeros bits (n / 2) in if n == 0 then suc bits else fewer

-- The elements `i` to `i + n - 1` that are left of the loop, each beside the one before it: how many
-- share the high `least` bits.
unfoldable pub similar_steps : ℕ → ℕ → ℕ → ℕ → List ℕ → ℕ
unfolding leading_zeros
similar_steps w least zero prev bytes = 0
similar_steps w least (suc n) prev bytes =
    let curr = from_le (take w bytes) in
    let more = similar_steps w least n curr (drop w bytes) in
    if leb least (leading_zeros (8 * w) (bit_xor prev curr)) then 1 + more else more

unfoldable pub is_correlated_float : List ℕ → DTypeId → Bool
unfolding similar_steps
is_correlated_float bytes dtype =
    let w = element_size dtype in
    let count = min (length bytes / w) 64 in
    let least = if dtype_eq dtype DType.float32 then 12 else 16 in
    let high_similarity_count =
      similar_steps w least (count - 1) (from_le (take w bytes)) (drop w bytes) in
    not (ltb count 4) && leb (count * 3 / 4) high_similarity_count

-- The values of the loop of `is_monotonic_trend`, moved up by `2 ^ 63`: an `i32` or an `i64`, and 0
-- at a width of 2. The moved values compare as the `i64`s do, and have the same differences.
unfoldable pub trend_value : ℕ → List ℕ → ℕ
trend_value w bytes =
    let n = from_le (take w bytes) in
    if w == 4
    then (if ltb n (2 ^ 31) then n + 2 ^ 63 else n + 2 ^ 63 - 2 ^ 32)
    else if w == 8
    then (n + 2 ^ 63) % 2 ^ 64
    else 2 ^ 63

-- `val >= prev && (val - prev) < 1000` in `i64`. The difference wraps in a release build, and a
-- wrapped one is negative.
unfoldable pub climbs : ℕ → ℕ → Bool
climbs prev val = leb prev val && (ltb (val - prev) 1000 || leb (2 ^ 63) (val - prev))

unfoldable pub monotonic_steps : ℕ → ℕ → ℕ → List ℕ → ℕ
unfolding trend_value climbs
monotonic_steps w zero prev bytes = 0
monotonic_steps w (suc n) prev bytes =
    let val = trend_value w bytes in
    let more = monotonic_steps w n val (drop w bytes) in if climbs prev val then 1 + more else more

unfoldable pub is_monotonic_trend : List ℕ → DTypeId → Bool
unfolding monotonic_steps
is_monotonic_trend bytes dtype =
    let w = element_size dtype in
    let count = min (length bytes / w) 64 in
    let steps = monotonic_steps w (count - 1) (trend_value w bytes) (drop w bytes) in
    not (ltb w 2) && (not (ltb count 8) && ltb (count * 3 / 4) steps)

module _ (high_entropy : List ℕ → Bool) where
  unfoldable pub auto_select : List ℕ → DTypeId → Bool → CodecSelection
  unfolding is_correlated_float is_monotonic_trend
  auto_select sample dtype fast =
      if length sample == 0
      then plain
      else if fast
      then quick
      else if dtype_eq dtype DType.float32 || dtype_eq dtype DType.float64
      then (if is_correlated_float sample dtype
          then record { codec = CodecId.chimp128; filter = FilterId.no_filter; level = 0 }
          else if high_entropy sample
          then quick
          else default_selection)
      else if is_monotonic_trend sample dtype
      then record { codec = CodecId.zstd; filter = FilterId.delta_zigzag; level = 3 }
      else if high_entropy sample
      then plain
      else default_selection

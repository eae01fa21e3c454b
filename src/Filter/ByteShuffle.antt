-- ===== src/Filter/ByteShuffle.antt =====
-- crates/tpx-filter/src/byte_shuffle.rs: the bytes of the elements by significance. The result
-- buffer is passed through the loops; every index that the source uses is in range.
pub mod Grid
pub mod RoundTrip
use orthos_i_dart_tpx.Base.{
  ℕ, ◌+◌, ◌*◌, ◌/◌, ◌%◌, List, ◌++◌, length, leb, ltb, ◌==◌, ◌||◌, if◌then◌else◌, take, drop,
  get_or, set, replicate, for_range,
}

-- The bytes `data[tail_start..]` copied over the end of `out`.
unfoldable pub copy_tail : List ℕ → ℕ → List ℕ → List ℕ
copy_tail bytes elem_size out =
    let tail_start = length bytes / elem_size * elem_size in
    if ltb 0 (length bytes % elem_size) then take tail_start out ++ drop tail_start bytes else out

unfoldable pub shuffle_scalar : List ℕ → ℕ → List ℕ
unfolding copy_tail
shuffle_scalar bytes elem_size =
    if (length bytes == 0) || leb elem_size 1
    then bytes
    else (let num_elements = length bytes / elem_size in
        copy_tail bytes elem_size (
          for_range elem_size 0
            (λ b out.
              for_range num_elements 0
                (λ i out'. set out' (b * num_elements + i) (get_or bytes (i * elem_size + b) 0))
                out)
            (replicate (length bytes) 0)))

unfoldable pub unshuffle_scalar : List ℕ → ℕ → List ℕ
unfolding copy_tail
unshuffle_scalar bytes elem_size =
    if (length bytes == 0) || leb elem_size 1
    then bytes
    else (let num_elements = length bytes / elem_size in
        copy_tail bytes elem_size (
          for_range elem_size 0
            (λ b out.
              for_range num_elements 0
                (λ i out'. set out' (i * elem_size + b) (get_or bytes (b * num_elements + i) 0))
                out)
            (replicate (length bytes) 0)))

unfoldable pub shuffle : List ℕ → ℕ → List ℕ
shuffle bytes elem_size = shuffle_scalar bytes elem_size

unfoldable pub unshuffle : List ℕ → ℕ → List ℕ
unshuffle bytes elem_size = unshuffle_scalar bytes elem_size

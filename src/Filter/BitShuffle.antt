-- ===== src/Filter/BitShuffle.antt =====
-- crates/tpx-filter/src/bit_shuffle.rs: the bits of all bytes by their place.
use orthos_i_dart_tpx.Base.{
  ℕ, ◌+◌, ◌*◌, ◌/◌, ◌%◌, ◌^◌, List, [], length, ltb, ◌==◌, if◌then◌else◌, bit_or, get_or, set,
  replicate, for_range,
}

unfoldable pub bit_shuffle : List ℕ → List ℕ
bit_shuffle bytes =
    if length bytes == 0
    then []
    else (let n = length bytes in
        for_range 8 0
          (λ bit_plane out.
            for_range n 0
              (λ i out'.
                let bit = get_or bytes i 0 / 2 ^ bit_plane % 2 in
                let dest_bit_pos = bit_plane * n + i in
                let dest_byte = dest_bit_pos / 8 in
                if ltb dest_byte n
                then set out' dest_byte
                    (bit_or (get_or out' dest_byte 0) (bit * 2 ^ (dest_bit_pos % 8) % 256))
                else out')
              out)
          (replicate n 0))

unfoldable pub bit_unshuffle : List ℕ → List ℕ
bit_unshuffle bytes =
    if length bytes == 0
    then []
    else (let n = length bytes in
        for_range 8 0
          (λ bit_plane out.
            for_range n 0
              (λ i out'.
                let src_bit_pos = bit_plane * n + i in
                let src_byte = src_bit_pos / 8 in
                if ltb src_byte n
                then (let bit = get_or bytes src_byte 0 / 2 ^ (src_bit_pos % 8) % 2 in
                    set out' i (bit_or (get_or out' i 0) (bit * 2 ^ bit_plane % 256)))
                else out')
              out)
          (replicate n 0))

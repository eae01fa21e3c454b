-- ===== src/Codec/Examples.antt =====
-- The theorems on the codecs at concrete inputs.
use orthos_i_dart_tpx.Base.{ℕ, ◌≡◌, refl, arith, some, List, [], ◌∷◌}
use orthos_i_dart_tpx.Core.Error.{ok, ◌>>=◌}
use orthos_i_dart_tpx.Core.DType.{float32, to_u8, dtype_eq}
use orthos_i_dart_tpx.Codec.Wrappers.{compress_chimp128, decompress_chimp128}
use orthos_i_dart_tpx.Codec.Wrappers.RoundTrip.{decompress-compress_chimp128}
use orthos_i_dart_tpx.Codec.Chimp128.{new_encoder, finish}
use orthos_i_dart_tpx.Codec.Chimp128.RoundTrip.{
  encode_all, decompress_values, decompress-encode_all,
}

-- 1.0 twice, 2.0 and 1.0 again.
abbrev values : List ℕ
values = 0x3ff0000000000000 ∷ 0x3ff0000000000000 ∷ 0x4000000000000000 ∷ 0x3ff0000000000000 ∷ []

decompress-encode_all_example :
    decompress_values 5 (finish (encode_all values new_encoder)) ≡ ok (some values)
decompress-encode_all_example =
    decompress-encode_all values 5 (omega arith) (omega arith) (omega arith)

-- Two halves of a double, read as elements of four bytes.
decompress-compress_chimp128_example :
    (compress_chimp128 (1 ∷ 2 ∷ 3 ∷ 4 ∷ 5 ∷ 6 ∷ 7 ∷ 8 ∷ []) float32 >>= λ packed.
    decompress_chimp128 packed 8 float32)
    ≡ ok (1 ∷ 2 ∷ 3 ∷ 4 ∷ 5 ∷ 6 ∷ 7 ∷ 8 ∷ [])
unfolding to_u8 dtype_eq
decompress-compress_chimp128_example =
    decompress-compress_chimp128 (1 ∷ 2 ∷ 3 ∷ 4 ∷ 5 ∷ 6 ∷ 7 ∷ 8 ∷ []) float32 2 refl (omega arith)
      (omega arith)
